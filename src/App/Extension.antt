-- ===== src/App/Extension.antt =====
-- What the login flow of the browser extension gets: notifyExtensionIfNeeded of frontend/App.tsx over
-- the storage of the browser in frontend/src/api/sessionStorage.ts.
use project_pn.Prelude.{
  ◌≡◌, inl, inr, refl, ◌∙◌, String, Bool, true, false, ◌||◌, none, some, List, [], ◌∷◌, append-nil,
  eqb, if◌then◌else◌, Bool-cases,
}
use project_pn.Api.Client.{api_error, plain_error}
use project_pn.Auth.Storage.{SessionResponse, create_browser_storage}
use project_pn.App.Store.{resolving}
use project_pn.App.Session.{
  App, launched_app, from_launch, from_link, Event, launched, opened, came, passed, unauthorized,
  logged_out, onboarded, failed, read_mark, session_for_extension, begin_check, check_passed,
  check_failed, session_came, initialize, open_url, signed_in, on_unauthorized, log_out, handle,
  run,
}

sent-if :
    {World : Type 0} (test : Bool) (a b : App World) {sessions : List SessionResponse}
    → a.sent ≡ sessions
    → b.sent ≡ sessions
    → (if test then a else b).sent ≡ sessions
sent-if true a b h k = h
sent-if false a b h k = k

module _ {World : Type 0} (is_extension : Bool) (in_an_hour : String) where
  none-session :
      (w : World)
      → session_for_extension (resolving create_browser_storage) true is_extension in_an_hour w
        ≡ inr []
  unfolding session_for_extension create_browser_storage
  none-session w = elim (Bool-cases is_extension) [
    | inl flow ↦ rw flow refl
    | inr other ↦ rw other refl
  ]

  handle-sends :
      (event : Event) (a : App World)
      → (handle (resolving create_browser_storage) true is_extension in_an_hour event a).sent
        ≡ a.sent
  unfolding handle initialize open_url signed_in session_came begin_check check_failed check_passed
      on_unauthorized log_out session_for_extension create_browser_storage
  handle-sends (launched none) a = refl
  handle-sends (launched (some session)) a = refl
  handle-sends (opened none) a = refl
  handle-sends (opened (some session)) a = refl
  handle-sends (came none) a = refl
  handle-sends (came (some session)) a = refl
  handle-sends (passed from_launch) a =
      sent-if (eqb a.launch_checks 0) a _ refl (rw (none-session a.world) (append-nil a.sent))
  handle-sends (passed from_link) a =
      sent-if (eqb a.link_checks 0) a _ refl (rw (none-session a.world) (append-nil a.sent))
  handle-sends unauthorized a = refl
  handle-sends onboarded a = refl
  handle-sends (logged_out none) a = refl
  handle-sends (logged_out (some (plain_error message))) a = refl
  handle-sends (logged_out (some (api_error status message code retryable))) a =
      sent-if (eqb status 502 || eqb status 503) a _ refl refl
  handle-sends (failed from_launch err) a = sent-if (eqb a.launch_checks 0) a _ refl refl
  handle-sends (failed from_link err) a = sent-if (eqb a.link_checks 0) a _ refl refl
  handle-sends (read_mark completed) a = refl

  run-sends :
      (events : List Event) (a : App World)
      → (run (resolving create_browser_storage) true is_extension in_an_hour events a).sent ≡ a.sent
  run-sends [] a = refl
  run-sends (event ∷ events) a =
      run-sends events
        (handle (resolving create_browser_storage) true is_extension in_an_hour event a)
      ∙ handle-sends event a

  -- In the browser, whose storage keeps no token, no run of the app from its launch sends a session to
  -- the browser extension, whether it was opened by its login flow or not.
  pub run-sent :
      (events : List Event) (w : World)
      → (run
          (resolving create_browser_storage)
          true
          is_extension
          in_an_hour
          events
          (launched_app w)).sent
        ≡ []
  run-sent events w = run-sends events (launched_app w)
