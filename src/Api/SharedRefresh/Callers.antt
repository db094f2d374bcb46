-- ===== src/Api/SharedRefresh/Callers.antt =====
-- What the callers of a shared refresh are given: packages/api/src/client.ts, `attemptRefresh`.
use project_pn.Prelude.{
  ℕ, ◌≡◌, refl, sym, ap, subst, ◌∙◌, inl, inr, String, Bool, Option, none, some, List, [], ◌∷◌,
  ◌++◌, ◌==◌, append-nil, append_assoc, if◌then◌else◌, Bool-cases,
}
use project_pn.Api.SharedRefresh.{
  reading_token, refreshing, reporting, Promise, no_promise, running, Shared, give_all, conclude,
  join_on, attempt, token_read, session_received, session_reported, Run, start, join_, go_on,
  receive, report,
}

module _ {Session : Type 0} where
  abbrev pub callers_of : List (ℕ × Option Session) → List ℕ
  callers_of [] = []
  callers_of ((caller, result) ∷ given) = caller ∷ callers_of given

  callers_of-append :
      (g h : List (ℕ × Option Session)) → callers_of (g ++ h) ≡ callers_of g ++ callers_of h
  callers_of-append [] h = refl
  callers_of-append ((c, r) ∷ g) h = ap (λ x. c ∷ x) (callers_of-append g h)

  callers_of-give_all :
      (r : Option Session) (callers : List ℕ) → callers_of (give_all r callers) ≡ callers
  callers_of-give_all r [] = refl
  callers_of-give_all r (c ∷ callers) = ap (λ x. c ∷ x) (callers_of-give_all r callers)

  -- A promise that no caller awaits has not begun.
  abbrev Awaited : Promise Session → List ℕ → Type 0
  Awaited no_promise waiting = waiting ≡ []
  Awaited (running stage) waiting = Unit

  abbrev IsAccounted : List ℕ → Shared Session → Type 0
  IsAccounted callers s =
      (callers ≡ callers_of s.given ++ s.waiting) × Awaited s.refresh_promise s.waiting

  IsAccounted-conclude :
      (callers : List ℕ) (r : Option Session) (s : Shared Session)
      → IsAccounted callers s
      → IsAccounted callers (conclude r s)
  unfolding conclude
  IsAccounted-conclude callers r s h = (
    h.0
        ∙ simp (
          append-nil,
          callers_of-append s.given (give_all r s.waiting),
          callers_of-give_all r s.waiting,
        ),
    refl,
  )

  IsAccounted-join_on :
      (callers : List ℕ) (promise : Promise Session) (caller : ℕ) (s : Shared Session)
      → s.refresh_promise ≡ promise
      → (callers ≡ callers_of s.given ++ s.waiting) × Awaited promise s.waiting
      → IsAccounted (callers ++ caller ∷ []) (join_on promise caller s)
  unfolding join_on
  IsAccounted-join_on callers no_promise caller s e (h, nobody) =
      (rw (h, nobody) (simp append-nil), tt)
  IsAccounted-join_on callers (running stage) caller s e (h, a) =
      (rw h (append_assoc (callers_of s.given) s.waiting (caller ∷ [])), rw e tt)

  IsAccounted-token_read :
      (callers : List ℕ) (answer : Option (Option String)) (s : Shared Session)
      → IsAccounted callers s
      → IsAccounted callers (token_read answer s)
  unfolding token_read
  IsAccounted-token_read callers none s h = IsAccounted-conclude callers none s h
  IsAccounted-token_read callers (some none) s h = IsAccounted-conclude callers none s h
  IsAccounted-token_read callers (some (some token)) s h = elim (Bool-cases (token == "")) [
    | inl blank ↦ rw blank (IsAccounted-conclude callers none s h)
    | inr given ↦ rw given (h.0, tt)
  ]

  IsAccounted-session_received :
      (callers : List ℕ) (answer : Option Session) (s : Shared Session)
      → IsAccounted callers s
      → IsAccounted callers (session_received answer s)
  unfolding session_received
  IsAccounted-session_received callers none s h = IsAccounted-conclude callers none s h
  IsAccounted-session_received callers (some session) s h = (h.0, tt)

  Run-IsAccounted : {callers : List ℕ} {s : Shared Session} → Run callers s → IsAccounted callers s
  unfolding attempt session_reported
  Run-IsAccounted start = (refl, refl)
  Run-IsAccounted (join_ {callers} {s} run caller) =
      IsAccounted-join_on callers s.refresh_promise caller s refl (Run-IsAccounted run)
  Run-IsAccounted (go_on {callers} {s} run answer e) =
      IsAccounted-token_read callers answer s (Run-IsAccounted run)
  Run-IsAccounted (receive {callers} {s} run token answer e) =
      IsAccounted-session_received callers answer s (Run-IsAccounted run)
  Run-IsAccounted (report {callers} {s} run session ok e) =
      IsAccounted-conclude callers (if ok then some session else none) s (Run-IsAccounted run)

  -- The answer that the function of the promise waits for, of one of three services.
  module _ (token_of : Option (Option String)) (session_of : String → Option Session)
      (is_reported : Session → Bool) where
    abbrev advance_on : Promise Session → Shared Session → Shared Session
    advance_on no_promise s = s
    advance_on (running reading_token) s = token_read token_of s
    advance_on (running (refreshing token)) s = session_received (session_of token) s
    advance_on (running (reporting session)) s = session_reported session (is_reported session) s

    abbrev pub advance : Shared Session → Shared Session
    advance s = advance_on s.refresh_promise s

    -- Settled for all who wait, with one result.
    abbrev Settles : Shared Session → Shared Session → Type 0
    Settles s r =
        (result : Option Session) × (r.refresh_promise ≡ no_promise)
        × (r.waiting ≡ [])
        × (r.given ≡ s.given ++ give_all result s.waiting)

    Settles-advance : (s r : Shared Session) → Settles s r → Settles s (advance r)
    Settles-advance s r h =
        let stays : advance r ≡ r = ap (λ p. advance_on p r) h.1 in subst (Settles s) (sym stays) h

    Settles-conclude :
        (result : Option Session) (s : Shared Session) → Settles s (conclude result s)
    unfolding conclude
    Settles-conclude result s = (result, refl, refl, refl)

    Settles-received :
        (o : Option Session) (s : Shared Session) → Settles s (advance (session_received o s))
    unfolding session_received session_reported
    Settles-received none s = Settles-advance s (conclude none s) (Settles-conclude none s)
    Settles-received (some session) s = Settles-conclude _ s

    Settles-token_read :
        (o : Option (Option String)) (s : Shared Session)
        → Settles s (advance (advance (token_read o s)))
    unfolding token_read
    Settles-token_read none s =
        Settles-advance s (advance (conclude none s))
          (Settles-advance s (conclude none s) (Settles-conclude none s))
    Settles-token_read (some none) s =
        Settles-advance s (advance (conclude none s))
          (Settles-advance s (conclude none s) (Settles-conclude none s))
    Settles-token_read (some (some token)) s = elim (Bool-cases (token == "")) [
      | inl blank ↦ rw blank (
          Settles-advance s (advance (conclude none s))
            (Settles-advance s (conclude none s) (Settles-conclude none s)))
      | inr given ↦ rw given (
          Settles-received (session_of token)
            (record s { refresh_promise = running (refreshing token) }))
    ]

    Settles-advance_on :
        (callers : List ℕ) (p : Promise Session) (s : Shared Session)
        → s.refresh_promise ≡ p
        → Awaited p s.waiting
        → Settles s (advance (advance (advance_on p s)))
    unfolding session_reported
    Settles-advance_on callers no_promise s e nobody =
        let here : Settles s s = (none, e, nobody, rw nobody (sym (append-nil s.given))) in
        Settles-advance s (advance s) (Settles-advance s s here)
    Settles-advance_on callers (running reading_token) s e a = Settles-token_read token_of s
    Settles-advance_on callers (running (refreshing token)) s e a =
        Settles-advance s (advance (session_received (session_of token) s))
          (Settles-received (session_of token) s)
    Settles-advance_on callers (running (reporting session)) s e a =
        Settles-advance s (advance (conclude _ s)) (
          Settles-advance s (conclude _ s)
            (Settles-conclude (if is_reported session then some session else none) s))

    -- However requests join, three answers, each a value or an error, settle the refresh that they
    -- share: all who wait are given one result and nobody is left waiting, the next request starts
    -- a refresh of its own, and over the whole run each caller was given just one result, in the
    -- order in which they joined.
    pub Run-settles :
        {callers : List ℕ} {s : Shared Session}
        → Run callers s
        → let r = advance (advance (advance s)) in
          (callers ≡ callers_of r.given)
          × ((result : Option Session) × (r.refresh_promise ≡ no_promise)
              × (r.waiting ≡ [])
              × (r.given ≡ s.given ++ give_all result s.waiting))
    Run-settles {callers} {s} run =
        let known = Run-IsAccounted run in
        let done = Settles-advance_on callers s.refresh_promise s refl known.1 in
        (
          known.0
              ∙ sym (
                  ap callers_of done.3
                  ∙ callers_of-append s.given (give_all done.0 s.waiting)
                  ∙ ap (λ xs. callers_of s.given ++ xs) (callers_of-give_all done.0 s.waiting)),
          done,
        )
