-- ===== src/Auth/Expiry.antt =====
-- When a session is renewed: frontend/src/utils/sessionRenewal.ts.
-- Times are milliseconds; `time_of` is `new Date(text).getTime()`, `none` for NaN.
use project_pn.Prelude.{
  ℕ, ◌+◌, ◌-◌, String, Bool, false, Option, none, some, ◌==◌, ltb, if◌then◌else◌,
}

abbrev pub refresh_buffer_ms : ℕ
refresh_buffer_ms = 300000

abbrev pub proactive_threshold_ms : ℕ
proactive_threshold_ms = 600000

module _ (time_of : String → Option ℕ) where
  -- The time of a text that is there and not empty.
  abbrev pub expiry_of : Option String → Option ℕ
  expiry_of none = none
  expiry_of (some text) = if text == "" then none else time_of text

  -- `Math.max(0, …)` is the subtraction that stops at 0.
  unfoldable pub ms_until_refresh : Option String → (now : ℕ) → Option ℕ
  ms_until_refresh expires_at now = elim (expiry_of expires_at) [
    | none ↦ none
    | some expires ↦ some (expires - now - refresh_buffer_ms)
  ]

  -- `expires - now < threshold`, over the integers.
  unfoldable pub should_refresh_proactively : Option String → (now : ℕ) → Bool
  should_refresh_proactively expires_at now = elim (expiry_of expires_at) [
    | none ↦ false
    | some expires ↦ ltb expires (now + proactive_threshold_ms)
  ]
