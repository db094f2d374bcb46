-- ===== src/App/FailClosed.antt =====
-- Who can see the app: AppContent of frontend/App.tsx, whose comment asks that a failure of the
-- connection or the backend never grants access.
use project_pn.Prelude.{
  ◌≡◌, ◌≢◌, ◌<◌, ◌⊎◌, inl, inr, refl, ◌∙◌, String, Bool, true, false, ◌||◌, Option, none, some,
  List, ◌∷◌, if◌then◌else◌, Bool-cases, All,
}
use project_pn.Api.Client.{Error}
use project_pn.App.Store.{AppStorage}
use project_pn.App.Session.{
  AuthState, loading, authenticated, unauthenticated, App, main_screen, shown, screen_of, Caller,
  from_launch, from_link, answered, Event, launched, opened, came, passed, unauthorized, logged_out,
  onboarded, failed, read_mark, forget, check_failed, on_unauthorized, log_out, handle, run,
}
use project_pn.App.Access.{
  is_passed, has_access, waiting-eqb, world-check_refused, forget-parts, out-run,
}

abbrev pub keeps_session : (is_browser : Bool) → Event → Bool
keeps_session is_browser (failed from err) = is_browser
keeps_session is_browser unauthorized = is_browser
keeps_session is_browser (passed from) = false
keeps_session is_browser (launched session) = false
keeps_session is_browser (opened session) = false
keeps_session is_browser (came session) = false
keeps_session is_browser (logged_out err) = false
keeps_session is_browser onboarded = false
keeps_session is_browser (read_mark completed) = false

-- An event by which the user is out: a check that fails, a 401, or a sign-out that the server
-- confirms. Where `clearSession` is awaited and nothing catches its error, it resolves.
abbrev pub Refuses :
    {World : Type 0} → AppStorage World → (is_browser : Bool) → Event → App World → Type 0
Refuses storage is_browser (failed from_launch err) a = 0 < a.launch_checks
Refuses storage is_browser (failed from_link err) a =
    (0 < a.link_checks) × ((is_browser || (storage.clear_session a.world).0) ≡ true)
Refuses storage is_browser unauthorized a = (is_browser || (storage.clear_session a.world).0) ≡ true
Refuses storage is_browser (logged_out none) a = (storage.clear_session a.world).0 ≡ true
Refuses storage is_browser (logged_out (some err)) a = ⊥
Refuses storage is_browser (launched session) a = ⊥
Refuses storage is_browser (opened session) a = ⊥
Refuses storage is_browser (came session) a = ⊥
Refuses storage is_browser (passed from) a = ⊥
Refuses storage is_browser onboarded a = ⊥
Refuses storage is_browser (read_mark completed) a = ⊥

main_screen-in :
    (completed : Option Bool) (state : AuthState)
    → has_access state ≡ false
    → screen_of completed state ≢ main_screen
main_screen-in none state h = λ e. cc
main_screen-in (some completed) loading h = λ e. cc
main_screen-in (some completed) authenticated h = λ e. cc
main_screen-in (some true) unauthenticated h = λ e. cc
main_screen-in (some false) unauthenticated h = λ e. cc

module _ {World : Type 0} where
  out-shown : (a : App World) → has_access a.auth_state ≡ false → shown a ≢ main_screen
  unfolding shown
  out-shown a h = main_screen-in a.onboarding_completed a.auth_state h

module _ {World : Type 0} (storage : AppStorage World) (is_browser is_extension : Bool)
    (in_an_hour : String) where
  -- A failed check of the launch, and any other whose clearing resolves.
  failed-out :
      (from : Caller) (err : Error) (a : App World)
      → (from ≡ from_launch) ⊎ ((is_browser || (storage.clear_session a.world).0) ≡ true)
      → has_access (check_failed storage is_browser is_extension in_an_hour from err a).auth_state
        ≡ false
  unfolding check_failed
  failed-out from_launch err a h =
      elim (Bool-cases (forget storage is_browser is_extension in_an_hour a).0) [
        | inl resolved ↦ rw resolved refl
        | inr rejected ↦ rw rejected refl
      ]
  failed-out from_link err a (inl e) = absurd (cc e)
  failed-out from_link err a (inr h) =
      rw ((forget-parts storage is_browser is_extension in_an_hour a).2, h) refl

  out-refused :
      (event : Event) (a : App World)
      → Refuses storage is_browser event a
      → has_access (handle storage is_browser is_extension in_an_hour event a).auth_state ≡ false
  unfolding handle log_out on_unauthorized
  out-refused (failed from_launch err) a waiting =
      rw (waiting-eqb a.launch_checks waiting)
        (failed-out from_launch err (answered from_launch a) (inl refl))
  out-refused (failed from_link err) a (waiting, resolved) =
      rw (waiting-eqb a.link_checks waiting)
        (failed-out from_link err (answered from_link a) (inr resolved))
  out-refused unauthorized a resolved =
      rw ((forget-parts storage is_browser is_extension in_an_hour a).2, resolved) refl
  out-refused (logged_out none) a resolved = rw resolved refl
  out-refused (logged_out (some err)) a h = absurd h
  out-refused (launched session) a h = absurd h
  out-refused (opened session) a h = absurd h
  out-refused (came session) a h = absurd h
  out-refused (passed from) a h = absurd h
  out-refused onboarded a h = absurd h
  out-refused (read_mark completed) a h = absurd h

  failed-world :
      (from : Caller) (err : Error) (a : App World)
      → (check_failed storage is_browser is_extension in_an_hour from err a).world
        ≡ (if is_browser then a.world else (storage.clear_session a.world).1)
  unfolding check_failed
  failed-world from err a =
      world-check_refused from err _ _
      ∙ (forget-parts storage is_browser is_extension in_an_hour a).0

  refused-world :
      (event : Event) (a : App World)
      → Refuses storage is_browser event a
      → (handle storage is_browser is_extension in_an_hour event a).world
        ≡ (if keeps_session is_browser event then a.world else (storage.clear_session a.world).1)
  unfolding handle log_out on_unauthorized
  refused-world (failed from_launch err) a waiting =
      rw (waiting-eqb a.launch_checks waiting)
        (failed-world from_launch err (answered from_launch a))
  refused-world (failed from_link err) a (waiting, resolved) =
      rw (waiting-eqb a.link_checks waiting) (failed-world from_link err (answered from_link a))
  refused-world unauthorized a h = (forget-parts storage is_browser is_extension in_an_hour a).0
  refused-world (logged_out none) a h = refl
  refused-world (logged_out (some err)) a h = absurd h
  refused-world (launched session) a h = absurd h
  refused-world (opened session) a h = absurd h
  refused-world (came session) a h = absurd h
  refused-world (passed from) a h = absurd h
  refused-world onboarded a h = absurd h
  refused-world (read_mark completed) a h = absurd h

  -- A check that fails, whatever the error, a 401, or a sign-out that the server confirms, clears the
  -- stored session, but for a check or a 401 in the browser; and whatever links, sign-ins, answers
  -- and launches follow, the main screen is not shown before a check of the session passes. Off the
  -- browser, and for the sign-out everywhere, the clearing must resolve, except after a check of the
  -- launch, whose errors are caught.
  pub fails-closed :
      (event : Event) (after : List Event) (a : App World)
      → Refuses storage is_browser event a
      → All (λ e. is_passed e ≡ false) after
      → ((handle storage is_browser is_extension in_an_hour event a).world
          ≡ (if keeps_session is_browser event then a.world else (storage.clear_session a.world).1))
        × (shown (run storage is_browser is_extension in_an_hour (event ∷ after) a) ≢ main_screen)
  fails-closed event after a refused none_passed = (
    refused-world event a refused,
    out-shown (run storage is_browser is_extension in_an_hour (event ∷ after) a) (
        out-run storage is_browser is_extension in_an_hour after
          (handle storage is_browser is_extension in_an_hour event a) (out-refused event a refused)
          none_passed),
  )
