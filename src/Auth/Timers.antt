-- ===== src/Auth/Timers.antt =====
-- The timeouts of frontend/src/hooks/useSessionRenewal.ts, and when they fire.
use project_pn.Prelude.{
  ℕ, ◌+◌, ◌-◌, max, ◌⊎◌, ◌≤◌, ◌<◌, ◌≡◌, refl, String, Bool, true, false, not, ◌||◌, inl, inr,
  Option, none, some, List, [], ◌∷◌, arith, eqb, eqb_iff, Bool-cases, Option-cases,
}
use project_pn.Auth.Expiry.{
  ms_until_refresh, should_refresh_proactively, expiry_of, refresh_buffer_ms,
}
use project_pn.Auth.Renewal.{
  Renewal, no_renewal, clear_timeout, clear_ref, begin_schedule, set_timer, fire, finish_renewal,
  begin_keep_alive, stop, unmount, expiry_read, keep_alive_read,
}

-- When the timeout that is set for an expiry fires, on time, the proactive check says that the
-- session is to be renewed; and where the expiry was not nearer than the buffer, exactly the buffer
-- is left of the session.
pub renewed-in-time :
    (time_of : String → Option ℕ) (expires_at : Option String) (now delay : ℕ)
    → ms_until_refresh time_of expires_at now ≡ some delay
    → (should_refresh_proactively time_of expires_at (now + delay) ≡ true)
      × ((expires : ℕ) × (expiry_of time_of expires_at ≡ some expires)
          × (now + delay + refresh_buffer_ms ≡ max expires (now + refresh_buffer_ms)))
unfolding ms_until_refresh should_refresh_proactively
renewed-in-time time_of expires_at now delay h =
    elim (Option-cases (expiry_of time_of expires_at)) [
      | inl absent ↦ absurd (let g : none ≡ some delay = rw (absent, ms_until_refresh) at h in cc)
      | inr (expires, present) ↦
          let d : expires - now - refresh_buffer_ms ≡ delay =
            (let g : some (expires - now - refresh_buffer_ms) ≡ some delay =
                rw (present, ms_until_refresh) at h in
              cc) in
          (
            rw (should_refresh_proactively, present) (ground (arith, d)),
            (expires, present, omega (arith, d)),
          )
    ]

-- What can happen next while no two schedules wait for the expiry at once.
pub data Step (time_of : String → Option ℕ) : Renewal → Renewal → Type 0 where
  scheduled :
      (s : Renewal) (enabled is_browser : Bool)
      → s.reading ≡ 0
      → Step time_of s (begin_schedule enabled is_browser s)
  read :
      (s : Renewal) (expires_at : Option String) (now : ℕ)
      → 0 < s.reading
      → Step time_of s (expiry_read time_of expires_at now s)
  fired : (s : Renewal) (id : ℕ) → Step time_of s (fire id s)
  renewed :
      (s : Renewal) (enabled is_browser ok : Bool)
      → s.reading ≡ 0
      → Step time_of s (finish_renewal enabled is_browser ok s)
  kept_alive :
      (s : Renewal) (enabled is_browser : Bool)
      → Step time_of s (begin_keep_alive enabled is_browser s)
  checked :
      (s : Renewal) (expires_at : Option String) (now : ℕ)
      → Step time_of s (keep_alive_read time_of expires_at now s)
  unmounted : (s : Renewal) → Step time_of s (unmount s)

pub data Steps (time_of : String → Option ℕ) (s : Renewal) : Renewal → Type 0 where
  start : Steps time_of s s
  then_ : {r u : Renewal} → Steps time_of s r → Step time_of r u → Steps time_of s u

-- The timeouts of a list, none or the one of the reference.
abbrev Held : Option ℕ → List (ℕ × ℕ) → Type 0
Held ref [] = Unit
Held ref ((id, due) ∷ []) = ref ≡ some id
Held ref (a ∷ b ∷ timers) = ⊥

-- At most one timeout runs, the one that `timerRef` names, and none while the expiry is read.
abbrev pub HasOneTimer : Renewal → Type 0
HasOneTimer s = (s.reading ≤ 1) × ((s.reading ≡ 0) ⊎ (s.timers ≡ [])) × Held s.timer_ref s.timers

Held-clear :
    (ref : Option ℕ) (id : ℕ) (timers : List (ℕ × ℕ))
    → Held ref timers
    → Held ref (clear_timeout id timers)
Held-clear ref id [] h = tt
Held-clear ref id ((i, due) ∷ []) h = elim (Bool-cases (eqb i id)) [
  | inl hit ↦ rw hit tt
  | inr miss ↦ rw miss h
]
Held-clear ref id (a ∷ b ∷ timers) h = absurd h

clear-Held : (id : ℕ) (timers : List (ℕ × ℕ)) → Held (some id) timers → clear_timeout id timers ≡ []
clear-Held id [] h = refl
clear-Held id ((i, due) ∷ []) h =
    let e : id ≡ i = (cc h) in rw (← e) (rw ((eqb_iff id id).1 refl) refl)
clear-Held id (a ∷ b ∷ timers) h = absurd h

Held-none : (timers : List (ℕ × ℕ)) → Held none timers → timers ≡ []
Held-none [] h = refl
Held-none ((i, due) ∷ []) h = absurd (cc h)
Held-none (a ∷ b ∷ timers) h = absurd h

timers-clear_ref : (s : Renewal) → Held s.timer_ref s.timers → (clear_ref s).timers ≡ []
unfolding clear_ref
timers-clear_ref s h = elim (Option-cases s.timer_ref) [
  | inl absent ↦ rw (clear_ref, absent) (Held-none s.timers (rw absent at h))
  | inr (id, present) ↦ rw (clear_ref, present) (clear-Held id s.timers (rw present at h))
]

cleared_ref :
    (s : Renewal) → ((clear_ref s).timer_ref ≡ none) × ((clear_ref s).next_timer ≡ s.next_timer)
unfolding clear_ref
cleared_ref s = elim (Option-cases s.timer_ref) [
  | inl absent ↦ (rw (clear_ref, absent) absent, rw (clear_ref, absent) refl)
  | inr (id, present) ↦ (rw (clear_ref, present) refl, rw (clear_ref, present) refl)
]

reading-clear_ref : (s : Renewal) → (clear_ref s).reading ≡ s.reading
unfolding clear_ref
reading-clear_ref s = elim (Option-cases s.timer_ref) [
  | inl absent ↦ rw (clear_ref, absent) refl
  | inr (id, present) ↦ rw (clear_ref, present) refl
]

HasOneTimer-begin_schedule :
    (enabled is_browser : Bool) (s : Renewal)
    → s.reading ≡ 0
    → HasOneTimer s
    → HasOneTimer (begin_schedule enabled is_browser s)
unfolding begin_schedule
HasOneTimer-begin_schedule enabled is_browser s idle h =
    let empty = timers-clear_ref s h.2 in
    let same = reading-clear_ref s in
    elim (Bool-cases (not enabled || is_browser)) [
      | inl stops ↦ rw stops (omega (arith, same, idle), inr empty, rw empty tt)
      | inr goes ↦ rw goes (omega (arith, same, idle), inr empty, rw empty tt)
    ]

HasOneTimer-set_timer :
    (now : ℕ) (delay : Option ℕ) (s : Renewal)
    → s.reading ≡ 0
    → s.timers ≡ []
    → HasOneTimer (set_timer now delay s)
unfolding set_timer
HasOneTimer-set_timer now none s idle empty = (omega (arith, idle), inl idle, rw empty tt)
HasOneTimer-set_timer now (some delay) s idle empty = (omega (arith, idle), inl idle, rw empty refl)

clear_nil : (id : ℕ) (timers : List (ℕ × ℕ)) → timers ≡ [] → clear_timeout id timers ≡ []
clear_nil id timers e = rw e refl

HasOneTimer-clear :
    (id : ℕ) (s : Renewal)
    → HasOneTimer s
    → HasOneTimer (record s { timers = clear_timeout id s.timers })
HasOneTimer-clear id s (le, inl idle, held) =
    (le, inl idle, Held-clear s.timer_ref id s.timers held)
HasOneTimer-clear id s (le, inr empty, held) =
    (le, inr (clear_nil id s.timers empty), Held-clear s.timer_ref id s.timers held)

HasOneTimer-stop : (ref : Option ℕ) (s : Renewal) → HasOneTimer s → HasOneTimer (stop ref s)
unfolding stop
HasOneTimer-stop none s h = h
HasOneTimer-stop (some id) s h = HasOneTimer-clear id s h

HasOneTimer-Step :
    {time_of : String → Option ℕ} {s u : Renewal} → Step time_of s u → HasOneTimer s → HasOneTimer u
unfolding finish_renewal begin_keep_alive keep_alive_read unmount fire expiry_read
HasOneTimer-Step (scheduled s enabled is_browser idle) h =
    HasOneTimer-begin_schedule enabled is_browser s idle h
HasOneTimer-Step {time_of} (read s expires_at now busy) (le, inl idle, held) =
    absurd (omega (arith, busy, idle))
HasOneTimer-Step {time_of} (read s expires_at now busy) (le, inr empty, held) =
    HasOneTimer-set_timer now (ms_until_refresh time_of expires_at now)
      (record s { reading = s.reading - 1 }) (omega (arith, le)) empty
HasOneTimer-Step (fired s id) h = HasOneTimer-clear id s h
HasOneTimer-Step (renewed s enabled is_browser true idle) h =
    HasOneTimer-begin_schedule enabled is_browser (record s { renewing = s.renewing - 1 }) idle h
HasOneTimer-Step (renewed s enabled is_browser false idle) h = h
HasOneTimer-Step (kept_alive s enabled is_browser) h =
    elim (Bool-cases (not enabled || is_browser)) [ inl stops ↦ rw stops h | inr goes ↦ rw goes h ]
HasOneTimer-Step {time_of} (checked s expires_at now) h =
    elim (Bool-cases (should_refresh_proactively time_of expires_at now)) [
      | inl renews ↦ rw renews h
      | inr waits ↦ rw waits h
    ]
HasOneTimer-Step (unmounted s) h = HasOneTimer-stop s.timer_ref s h

-- As long as no schedule begins while another waits for the expiry, at most one timeout runs, and
-- `timerRef` names it, so that the cleanup can stop it.
pub Steps-HasOneTimer :
    {time_of : String → Option ℕ} {s : Renewal} → Steps time_of no_renewal s → HasOneTimer s
Steps-HasOneTimer start = (omega arith, inl refl, tt)
Steps-HasOneTimer (then_ steps step) = HasOneTimer-Step step (Steps-HasOneTimer steps)

-- When the hook is cleaned up while a schedule waits for the expiry, the cleanup stops nothing and
-- the schedule then sets a timeout that runs on.
pub unmounted-sets-timer :
    (time_of : String → Option ℕ) (s : Renewal) (expires_at : Option String) (now delay : ℕ)
    → HasOneTimer s
    → ms_until_refresh time_of expires_at now ≡ some delay
    → (expiry_read time_of expires_at now (unmount (begin_schedule true false s))).timers
      ≡ (s.next_timer, now + delay) ∷ []
unfolding unmount stop begin_schedule expiry_read set_timer
unmounted-sets-timer time_of s expires_at now delay h e =
    let cleared = cleared_ref s in rw (cleared.0, e) (rw (timers-clear_ref s h.2, cleared.1) refl)
