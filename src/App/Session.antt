-- ===== src/App/Session.antt =====
-- Who is signed in, and which screen is shown: AppContent of frontend/App.tsx, handleSignIn of
-- frontend/src/screens/CentralAuthScreen.tsx, and the sign-out of frontend/src/api/auth.ts and
-- frontend/src/features/profile/ProfileScreen.tsx.
-- `launch_checks` and `link_checks` count the calls of `me` whose answers are still to come: those of
-- the launch, whose errors `initializeAuth` catches, and those after a link or a sign-in, which
-- nothing awaits. `sent` are the sessions given to the browser extension. The storage of the session is
-- a parameter whose calls may reject, with an error that is no 401; `is_browser` is `isBrowserWeb()`, `is_extension` the flag of the login flow, and `in_an_hour`
-- the text of the time an hour from now. Tracking is left out.
use project_pn.Prelude.{
  ℕ, ◌+◌, ◌-◌, ◌⊎◌, inl, inr, String, Bool, true, false, not, ◌&&◌, ◌||◌, Option, none, some, List,
  [], ◌∷◌, ◌++◌, ◌==◌, eqb, if◌then◌else◌, or_else,
}
use project_pn.Api.Client.{Error, api_error, plain_error, message_of}
use project_pn.Auth.Storage.{SessionResponse}
use project_pn.App.Store.{AppStorage}

pub data AuthState : Type 0 where
  loading authenticated unauthenticated : AuthState

pub record App (World : Type 0) : Type 0 where
  pub auth_state : AuthState
  pub onboarding_completed : Option Bool
  pub connection_error : Option String
  pub launch_checks : ℕ
  pub link_checks : ℕ
  pub sent : List SessionResponse
  pub world : World

abbrev pub launched_app : {World : Type 0} → World → App World
launched_app w = record {
  auth_state = loading;
  onboarding_completed = none;
  connection_error = none;
  launch_checks = 0;
  link_checks = 0;
  sent = [];
  world = w;
}

pub data Shown : Type 0 where
  loading_screen onboarding_screen main_screen sign_in_screen : Shown

abbrev pub screen_of : (onboarding_completed : Option Bool) → AuthState → Shown
screen_of none state = loading_screen
screen_of (some completed) loading = loading_screen
screen_of (some completed) authenticated = if completed then main_screen else onboarding_screen
screen_of (some completed) unauthenticated = if completed then sign_in_screen else onboarding_screen

unfoldable pub shown : {World : Type 0} → App World → Shown
shown a = screen_of a.onboarding_completed a.auth_state

-- `!token`
abbrev pub is_missing : Option String → Bool
is_missing none = true
is_missing (some token) = token == ""

-- `err.status === 401`
abbrev pub is_unauthorized : Error → Bool
is_unauthorized (plain_error message) = false
is_unauthorized (api_error status message code retryable) = eqb status 401

abbrev pub connection_message : Error → String
connection_message err =
    if message_of err == "" then "Could not connect to the backend server." else message_of err

-- Who called `checkAuth`.
pub data Caller : Type 0 where
  from_launch from_link : Caller

abbrev pub checks_of : {World : Type 0} → Caller → App World → ℕ
checks_of from_launch a = a.launch_checks
checks_of from_link a = a.link_checks

abbrev pub begun : {World : Type 0} → Caller → App World → App World
begun from_launch a = record a { launch_checks = a.launch_checks + 1 }
begun from_link a = record a { link_checks = a.link_checks + 1 }

abbrev pub answered : {World : Type 0} → Caller → App World → App World
answered from_launch a = record a { launch_checks = a.launch_checks - 1 }
answered from_link a = record a { link_checks = a.link_checks - 1 }

-- An error that leaves `checkAuth`: `initializeAuth` catches it, and else nothing does.
abbrev pub rejected_for : {World : Type 0} → Caller → App World → App World
rejected_for from_launch a = record a { auth_state = unauthenticated }
rejected_for from_link a = a

-- The `catch` of `checkAuth` after `clearSession`, if that resolved.
abbrev pub check_refused :
    {World : Type 0} → Caller → Error → (resolved : Bool) → App World → App World
check_refused from err true a = record a {
  auth_state = unauthenticated;
  connection_error = if is_unauthorized err then none else some (connection_message err);
}
check_refused from err false a = rejected_for from a

-- The session that `notifyExtensionIfNeeded` sends, from what it reads.
abbrev pub session_read :
    (in_an_hour token : String)
    → (refresh_token expires_at : Error ⊎ Option String) → Error ⊎ List SessionResponse
session_read in_an_hour token (inl err) expires_at = inl err
session_read in_an_hour token (inr refresh_token) (inl err) = inl err
session_read in_an_hour token (inr refresh_token) (inr expires_at) = inr (
    record {
      token = token;
      refresh_token = or_else refresh_token token;
      expires_at = or_else expires_at in_an_hour;
    }
    ∷ [])

-- What happens to the app. `passed` and `failed` are answers to one call of `me`.
pub data Event : Type 0 where
  launched opened came : Option SessionResponse → Event
  passed : Caller → Event
  unauthorized onboarded : Event
  logged_out : Option Error → Event
  failed : Caller → Error → Event
  read_mark : Option Bool → Event

module _ {World : Type 0} (storage : AppStorage World) (is_browser is_extension : Bool)
    (in_an_hour : String) where
  -- Off the browser the stored session is cleared: whether that resolved, and the app after it.
  unfoldable pub forget : App World → Bool × App World
  forget a = if is_browser then (true, a) else (
    (storage.clear_session a.world).0,
    record a { world = (storage.clear_session a.world).1 },
  )

  abbrev pub session_with : Error ⊎ Option String → World → Error ⊎ List SessionResponse
  session_with (inl err) w = inl err
  session_with (inr none) w = inr []
  session_with (inr (some token)) w =
      if token == ""
      then inr []
      else session_read in_an_hour token (storage.get_refresh_token w) (storage.get_expires_at w)

  -- The session that `notifyExtensionIfNeeded` sends, if any, or the error of the storage.
  unfoldable pub session_for_extension : World → Error ⊎ List SessionResponse
  session_for_extension w =
      if not is_browser || not is_extension then inr [] else session_with (storage.get_token w) w

  unfoldable pub check_failed : Caller → Error → App World → App World
  unfolding forget
  check_failed from err a = check_refused from err (forget a).0 (forget a).1

  -- The `try` of `checkAuth` with what `getToken` gives off the browser.
  abbrev pub begin_with : Caller → Error ⊎ Option String → App World → App World
  begin_with from (inl err) a = check_failed from err a
  begin_with from (inr token) a =
      if is_missing token
      then record a { auth_state = unauthenticated; connection_error = none }
      else begun from a

  -- `checkAuth` up to the request of `me`.
  unfoldable pub begin_check : Caller → App World → App World
  unfolding check_failed
  begin_check from a =
      if is_browser then begun from a else begin_with from (storage.get_token a.world) a

  abbrev pub notified : Caller → Error ⊎ List SessionResponse → App World → App World
  notified from (inl err) a = check_failed from err a
  notified from (inr sessions) a = record a { sent = a.sent ++ sessions }

  unfoldable pub check_passed : Caller → App World → App World
  unfolding session_for_extension check_failed
  check_passed from a =
      notified from (session_for_extension a.world)
        (record a { auth_state = authenticated; connection_error = none })

  abbrev pub session_stored : Caller → (resolved : Bool) → App World → App World
  session_stored from true a = begin_check from a
  session_stored from false a = rejected_for from a

  -- A session that came by a link or the sign-in page is stored and checked.
  unfoldable pub session_came : Caller → SessionResponse → App World → App World
  unfolding begin_check
  session_came from session a =
      session_stored from (storage.set_session session a.world).0
        (record a { world = (storage.set_session session a.world).1 })

  -- `initializeAuth` with the session of the launch.
  unfoldable pub initialize : Option SessionResponse → App World → App World
  unfolding begin_check session_came
  initialize none a = begin_check from_launch a
  initialize (some session) a = session_came from_launch session a

  -- `handleOpenURL`
  unfoldable pub open_url : Option SessionResponse → App World → App World
  unfolding session_came
  open_url none a = a
  open_url (some session) a = if is_browser then a else session_came from_link session a

  -- `handleSignIn` after the browser session: `none` where it was cancelled or gave no session.
  unfoldable pub signed_in : Option SessionResponse → App World → App World
  unfolding session_came
  signed_in none a = a
  signed_in (some session) a = if is_browser then a else session_came from_link session a

  -- The listener of `onUnauthorized`.
  unfoldable pub on_unauthorized : App World → App World
  unfolding forget
  on_unauthorized a = record ((forget a).1) {
    auth_state = if (forget a).0 then unauthenticated else a.auth_state;
  }

  -- `logout`, and `handleLogout` of the profile screen, with the error of the request if any: when the
  -- gateway could not confirm it nothing changes; else the session is cleared, and the screen stays if
  -- that rejects or the request had another error than 401.
  unfoldable pub log_out : Option Error → App World → App World
  log_out none a = record a {
    world = (storage.clear_session a.world).1;
    auth_state = if (storage.clear_session a.world).0 then unauthenticated else a.auth_state;
  }
  log_out (some (plain_error message)) a = record a { world = (storage.clear_session a.world).1 }
  log_out (some (api_error status message code retryable)) a =
      if eqb status 502 || eqb status 503 then a else record a {
        world = (storage.clear_session a.world).1;
        auth_state =
            if (storage.clear_session a.world).0 && eqb status 401
            then unauthenticated
            else a.auth_state;
      }

  abbrev pub complete_onboarding : App World → App World
  complete_onboarding a = record a { onboarding_completed = some true }

  -- The stored mark, `none` where it could not be read.
  abbrev pub onboarding_read : Option Bool → App World → App World
  onboarding_read completed a = record a { onboarding_completed = some (or_else completed false) }

  unfoldable pub handle : Event → App World → App World
  unfolding initialize open_url signed_in check_passed check_failed on_unauthorized log_out
  handle (launched session) a = initialize session a
  handle (opened session) a = open_url session a
  handle (came session) a = signed_in session a
  handle (passed from) a =
      if eqb (checks_of from a) 0 then a else check_passed from (answered from a)
  handle (failed from err) a =
      if eqb (checks_of from a) 0 then a else check_failed from err (answered from a)
  handle unauthorized a = on_unauthorized a
  handle (logged_out err) a = log_out err a
  handle onboarded a = complete_onboarding a
  handle (read_mark completed) a = onboarding_read completed a

  abbrev pub run : List Event → App World → App World
  run [] a = a
  run (event ∷ events) a = run events (handle event a)
