-- ===== src/App/Access.antt =====
-- What keeps the user out of the app: AppContent of frontend/App.tsx.
use project_pn.Prelude.{
  ℕ, ◌≡◌, ◌<◌, ◌⊎◌, inl, inr, refl, ap, ◌∙◌, String, Bool, true, false, ◌||◌, Option, none, some,
  List, [], ◌∷◌, eqb, arith, if◌then◌else◌, Bool-cases, All,
}
use project_pn.Api.Client.{Error, api_error, plain_error}
use project_pn.Auth.Storage.{SessionResponse}
use project_pn.App.Store.{AppStorage}
use project_pn.App.Session.{
  AuthState, loading, authenticated, unauthenticated, App, Caller, from_launch, from_link,
  checks_of, begun, answered, rejected_for, check_refused, Event, launched, opened, came, passed,
  unauthorized, logged_out, onboarded, failed, read_mark, is_missing, forget, begin_with,
  begin_check, check_failed, session_stored, session_came, initialize, open_url, signed_in,
  on_unauthorized, log_out, handle, run,
}

abbrev pub is_passed : Event → Bool
is_passed (passed from) = true
is_passed (launched session) = false
is_passed (opened session) = false
is_passed (came session) = false
is_passed (failed from err) = false
is_passed unauthorized = false
is_passed (logged_out err) = false
is_passed onboarded = false
is_passed (read_mark completed) = false

abbrev pub has_access : AuthState → Bool
has_access authenticated = true
has_access loading = false
has_access unauthenticated = false

pub waiting-eqb : (n : ℕ) → 0 < n → eqb n 0 ≡ false
waiting-eqb n waiting = ground arith

module _ {World : Type 0} where
  out-check_refused :
      (from : Caller) (err : Error) (resolved : Bool) (a : App World)
      → has_access a.auth_state ≡ false
      → has_access (check_refused from err resolved a).auth_state ≡ false
  out-check_refused from err true a h = refl
  out-check_refused from_launch err false a h = refl
  out-check_refused from_link err false a h = h

  out-begun :
      (from : Caller) (a : App World)
      → has_access a.auth_state ≡ false
      → has_access (begun from a).auth_state ≡ false
  out-begun from_launch a h = h
  out-begun from_link a h = h

  out-answered :
      (from : Caller) (a : App World)
      → has_access a.auth_state ≡ false
      → has_access (answered from a).auth_state ≡ false
  out-answered from_launch a h = h
  out-answered from_link a h = h

  out-rejected_for :
      (from : Caller) (a : App World)
      → has_access a.auth_state ≡ false
      → has_access (rejected_for from a).auth_state ≡ false
  out-rejected_for from_launch a h = refl
  out-rejected_for from_link a h = h

  out-if :
      (test : Bool) (a b : App World)
      → has_access a.auth_state ≡ false
      → has_access b.auth_state ≡ false
      → has_access (if test then a else b).auth_state ≡ false
  out-if true a b h k = h
  out-if false a b h k = k

  out-state :
      (test : Bool) (a : App World)
      → has_access a.auth_state ≡ false
      → has_access (if test then unauthenticated else a.auth_state) ≡ false
  out-state true a h = refl
  out-state false a h = h

  pub world-check_refused :
      (from : Caller) (err : Error) (resolved : Bool) (a : App World)
      → (check_refused from err resolved a).world ≡ a.world
  world-check_refused from err true a = refl
  world-check_refused from_launch err false a = refl
  world-check_refused from_link err false a = refl

module _ {World : Type 0} (storage : AppStorage World) (is_browser is_extension : Bool)
    (in_an_hour : String) where
  pub forget-parts :
      (a : App World)
      → ((forget storage is_browser is_extension in_an_hour a).1.world
          ≡ (if is_browser then a.world else (storage.clear_session a.world).1))
        × ((forget storage is_browser is_extension in_an_hour a).1.auth_state ≡ a.auth_state)
        × ((forget storage is_browser is_extension in_an_hour a).0
            ≡ (is_browser || (storage.clear_session a.world).0))
  unfolding forget
  forget-parts a = elim (Bool-cases is_browser) [
    | inl web ↦ rw web (refl, refl, refl)
    | inr app ↦ rw app (refl, refl, refl)
  ]

  out-forget :
      (a : App World)
      → has_access a.auth_state ≡ false
      → has_access (forget storage is_browser is_extension in_an_hour a).1.auth_state ≡ false
  out-forget a h = ap has_access (forget-parts a).1 ∙ h

  out-check_failed :
      (from : Caller) (err : Error) (a : App World)
      → has_access a.auth_state ≡ false
      → has_access (check_failed storage is_browser is_extension in_an_hour from err a).auth_state
        ≡ false
  unfolding check_failed
  out-check_failed from err a h = out-check_refused from err _ _ (out-forget a h)

  out-begin_with :
      (from : Caller) (token : Error ⊎ Option String) (a : App World)
      → has_access a.auth_state ≡ false
      → has_access (begin_with storage is_browser is_extension in_an_hour from token a).auth_state
        ≡ false
  out-begin_with from (inl err) a h = out-check_failed from err a h
  out-begin_with from (inr token) a h = out-if (is_missing token) _ _ refl (out-begun from a h)

  out-begin_check :
      (from : Caller) (a : App World)
      → has_access a.auth_state ≡ false
      → has_access (begin_check storage is_browser is_extension in_an_hour from a).auth_state
        ≡ false
  unfolding begin_check
  out-begin_check from a h =
      out-if is_browser _ _ (out-begun from a h)
        (out-begin_with from (storage.get_token a.world) a h)

  out-session_stored :
      (from : Caller) (resolved : Bool) (a : App World)
      → has_access a.auth_state ≡ false
      → has_access
          (session_stored storage is_browser is_extension in_an_hour from resolved a).auth_state
        ≡ false
  out-session_stored from true a h = out-begin_check from a h
  out-session_stored from false a h = out-rejected_for from a h

  out-session_came :
      (from : Caller) (session : SessionResponse) (a : App World)
      → has_access a.auth_state ≡ false
      → has_access
          (session_came storage is_browser is_extension in_an_hour from session a).auth_state
        ≡ false
  unfolding session_came
  out-session_came from session a h = out-session_stored from _ _ h

  out-handle :
      (event : Event) (a : App World)
      → is_passed event ≡ false
      → has_access a.auth_state ≡ false
      → has_access (handle storage is_browser is_extension in_an_hour event a).auth_state ≡ false
  unfolding handle open_url signed_in initialize log_out on_unauthorized
  out-handle (launched none) a p h = out-begin_check from_launch a h
  out-handle (launched (some session)) a p h = out-session_came from_launch session a h
  out-handle (opened none) a p h = h
  out-handle (opened (some session)) a p h =
      out-if is_browser a _ h (out-session_came from_link session a h)
  out-handle (came none) a p h = h
  out-handle (came (some session)) a p h =
      out-if is_browser a _ h (out-session_came from_link session a h)
  out-handle (passed from) a p h = cc
  out-handle unauthorized a p h = out-state _ a h
  out-handle onboarded a p h = h
  out-handle (logged_out none) a p h = out-state _ a h
  out-handle (logged_out (some (plain_error message))) a p h = h
  out-handle (logged_out (some (api_error status message code retryable))) a p h =
      out-if (eqb status 502 || eqb status 503) a _ h (out-state _ a h)
  out-handle (failed from err) a p h =
      out-if (eqb (checks_of from a) 0) a _ h
        (out-check_failed from err (answered from a) (out-answered from a h))
  out-handle (read_mark completed) a p h = h

  pub out-run :
      (events : List Event) (a : App World)
      → has_access a.auth_state ≡ false
      → All (λ event. is_passed event ≡ false) events
      → has_access (run storage is_browser is_extension in_an_hour events a).auth_state ≡ false
  out-run [] a h none_passed = h
  out-run (event ∷ events) a h (p, rest) =
      out-run events (handle storage is_browser is_extension in_an_hour event a)
        (out-handle event a p h) rest
