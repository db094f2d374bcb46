-- ===== src/Auth/Renewal.antt =====
-- The timer that renews a session: frontend/src/hooks/useSessionRenewal.ts.
-- Each callback is its part up to its first wait and the part after it. `timers` are the timeouts
-- that run, with the times at which they fire; `reading`, `checking` and `renewing` count the calls
-- that wait for the expiry, for that of the keep-alive, and for a renewal.
use project_pn.Prelude.{
  ℕ, ◌+◌, ◌-◌, String, Bool, true, false, not, ◌||◌, Option, none, some, List, [], ◌∷◌, ◌++◌, ◌==◌,
  eqb, if◌then◌else◌,
}
use project_pn.Auth.Storage.{SessionResponse, SessionStorage}
use project_pn.Auth.Expiry.{ms_until_refresh, should_refresh_proactively}

pub record Renewal : Type 0 where
  pub timer_ref : Option ℕ
  pub timers : List (ℕ × ℕ)
  pub next_timer : ℕ
  pub reading : ℕ
  pub checking : ℕ
  pub renewing : ℕ

abbrev pub no_renewal : Renewal
no_renewal = record {
  timer_ref = none;
  timers = [];
  next_timer = 0;
  reading = 0;
  checking = 0;
  renewing = 0;
}

-- `answer` is what `refreshSession` gives for a token, `none` when it throws.
unfoldable pub renew_bearer_session :
    {World : Type 0}
    → SessionStorage World
    → (answer : String → Option SessionResponse) → World
    → Bool × World
renew_bearer_session storage answer w = elim (storage.get_refresh_token w) [
  | none ↦ (false, w)
  | some refresh_token ↦ if refresh_token == "" then (false, w) else elim (answer refresh_token) [
    | none ↦ (false, w)
    | some session ↦ (true, storage.set_session session w)
  ]
]

abbrev pub clear_timeout : ℕ → List (ℕ × ℕ) → List (ℕ × ℕ)
clear_timeout id [] = []
clear_timeout id ((i, due) ∷ timers) =
    if eqb i id then clear_timeout id timers else (i, due) ∷ clear_timeout id timers

unfoldable pub clear_ref : Renewal → Renewal
clear_ref s = elim s.timer_ref [
  | none ↦ s
  | some id ↦ record s { timer_ref = none; timers = clear_timeout id s.timers }
]

unfoldable pub begin_schedule : (enabled is_browser : Bool) → Renewal → Renewal
unfolding clear_ref
begin_schedule enabled is_browser s =
    let cleared : Renewal = clear_ref s in
    if not enabled || is_browser then cleared else record cleared { reading = cleared.reading + 1 }

unfoldable pub set_timer : (now : ℕ) → Option ℕ → Renewal → Renewal
set_timer now none s = s
set_timer now (some delay) s = record s {
  timer_ref = some s.next_timer;
  timers = s.timers ++ (s.next_timer, now + delay) ∷ [];
  next_timer = s.next_timer + 1;
}

-- The callback of the timeout begins a renewal; `timerRef` keeps its id.
unfoldable pub fire : (id : ℕ) → Renewal → Renewal
fire id s = record s { timers = clear_timeout id s.timers; renewing = s.renewing + 1 }

-- `renewBearerSession` gives `renewed`.
unfoldable pub finish_renewal : (enabled is_browser renewed : Bool) → Renewal → Renewal
unfolding begin_schedule
finish_renewal enabled is_browser renewed s =
    let after : Renewal = record s { renewing = s.renewing - 1 } in
    if renewed then begin_schedule enabled is_browser after else after

-- On browsers `keepAlive` only asks who is signed in.
unfoldable pub begin_keep_alive : (enabled is_browser : Bool) → Renewal → Renewal
begin_keep_alive enabled is_browser s =
    if not enabled || is_browser then s else record s { checking = s.checking + 1 }

-- The cleanup of the effect, with the timeout to clear: `timerRef` is left as it is.
unfoldable pub stop : Option ℕ → Renewal → Renewal
stop none s = s
stop (some id) s = record s { timers = clear_timeout id s.timers }

unfoldable pub unmount : Renewal → Renewal
unfolding stop
unmount s = stop s.timer_ref s

module _ (time_of : String → Option ℕ) where
  unfoldable pub expiry_read : (expires_at : Option String) (now : ℕ) → Renewal → Renewal
  unfolding set_timer ms_until_refresh
  expiry_read expires_at now s =
      set_timer now (ms_until_refresh time_of expires_at now) (record s { reading = s.reading - 1 })

  unfoldable pub keep_alive_read : (expires_at : Option String) (now : ℕ) → Renewal → Renewal
  unfolding should_refresh_proactively
  keep_alive_read expires_at now s =
      if should_refresh_proactively time_of expires_at now
      then record s { checking = s.checking - 1; renewing = s.renewing + 1 }
      else record s { checking = s.checking - 1 }
