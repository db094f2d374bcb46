-- ===== src/Api/SharedRefresh.antt =====
-- The refresh that concurrent requests share: `refreshPromise` and `attemptRefresh` of
-- packages/api/src/client.ts.
-- A request that calls `attemptRefresh` is a caller, by a number. The state holds the promise, what
-- its function waits for, the callers that await it, and what the callers were given, in order.
pub mod Callers
use project_pn.Prelude.{
  ℕ, ◌+◌, ◌≡◌, String, Bool, true, false, Option, none, some, List, [], ◌∷◌, ◌++◌, ◌==◌,
  if◌then◌else◌,
}

-- What the function of the promise waits for.
pub data Stage (Session : Type 0) : Type 0 where
  reading_token : Stage Session
  refreshing : (refresh_token : String) → Stage Session
  reporting : Session → Stage Session

-- `refreshPromise`: null, or a promise that runs. Its own `finally` resets it when it settles.
pub data Promise (Session : Type 0) : Type 0 where
  no_promise : Promise Session
  running : Stage Session → Promise Session

pub record Shared (Session : Type 0) : Type 0 where
  pub refresh_promise : Promise Session
  pub waiting : List ℕ
  pub given : List (ℕ × Option Session)

module _ {Session : Type 0} where
  abbrev pub no_refresh : Shared Session
  no_refresh = record { refresh_promise = no_promise; waiting = []; given = [] }

  abbrev pub give_all : Option Session → List ℕ → List (ℕ × Option Session)
  give_all result [] = []
  give_all result (caller ∷ callers) = (caller, result) ∷ give_all result callers

  -- The function of the promise ends: its `finally`, and the callers that await it.
  unfoldable pub conclude : Option Session → Shared Session → Shared Session
  conclude result s = record {
    refresh_promise = no_promise;
    waiting = [];
    given = s.given ++ give_all result s.waiting;
  }

  -- `attemptRefresh` where `getRefreshToken` is configured: it is asynchronous, so its promise is
  -- assigned before anything settles.
  unfoldable pub join_on : Promise Session → ℕ → Shared Session → Shared Session
  join_on no_promise caller s = record s {
    refresh_promise = running reading_token;
    waiting = caller ∷ [];
  }
  join_on (running stage) caller s = record s { waiting = s.waiting ++ caller ∷ [] }

  unfoldable pub attempt : (has_refresh_token : Bool) → ℕ → Shared Session → Shared Session
  unfolding join_on
  attempt has_refresh_token caller s =
      if has_refresh_token
      then join_on s.refresh_promise caller s
      else record s { given = s.given ++ (caller, none) ∷ [] }

  -- What the function awaits comes: a value, or an error, which gives null.
  unfoldable pub token_read : Option (Option String) → Shared Session → Shared Session
  unfolding conclude
  token_read none s = conclude none s
  token_read (some none) s = conclude none s
  token_read (some (some refresh_token)) s =
      if refresh_token == ""
      then conclude none s
      else record s { refresh_promise = running (refreshing refresh_token) }

  unfoldable pub session_received : Option Session → Shared Session → Shared Session
  unfolding conclude
  session_received none s = conclude none s
  session_received (some session) s = record s { refresh_promise = running (reporting session) }

  -- `onSessionRefreshed` returns, or throws.
  unfoldable pub session_reported : Session → (ok : Bool) → Shared Session → Shared Session
  unfolding conclude
  session_reported session ok s = conclude (if ok then some session else none) s

  -- A run under a configuration that has `getRefreshToken`, with the callers that
  -- joined, in order.
  pub data Run : List ℕ → Shared Session → Type 0 where
    start : Run [] no_refresh
    join_ :
        {callers : List ℕ} {s : Shared Session}
        → Run callers s
        → (caller : ℕ) → Run (callers ++ caller ∷ []) (attempt true caller s)
    go_on :
        {callers : List ℕ} {s : Shared Session}
        → Run callers s
        → (answer : Option (Option String)) → s.refresh_promise ≡ running reading_token
        → Run callers (token_read answer s)
    receive :
        {callers : List ℕ} {s : Shared Session}
        → Run callers s
        → (refresh_token : String) (answer : Option Session)
        → s.refresh_promise ≡ running (refreshing refresh_token)
        → Run callers (session_received answer s)
    report :
        {callers : List ℕ} {s : Shared Session}
        → Run callers s
        → (session : Session) (ok : Bool) → s.refresh_promise ≡ running (reporting session)
        → Run callers (session_reported session ok s)
