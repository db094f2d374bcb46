-- ===== src/Add/CaptureHistory.antt =====
-- The words that were captured lately: frontend/src/storage/captureHistory.ts.
-- The store is that of the platform, as for a session (a failed read of the SecureStore reads as
-- nothing). JSON, dates, `trim` and `toLowerCase` are the platform's. Each call of `Date.now` is an
-- argument.
pub mod Recent
use project_pn.Prelude.{
  ℕ, ◌+◌, ◌≡◌, String, Bool, true, false, not, Option, none, some, List, [], ◌∷◌, ◌==◌, map, filter,
  any, take, leb, length, if◌then◌else◌,
}
use project_pn.Auth.Storage.{KeyValue}

abbrev pub capture_history_key : String
capture_history_key = "project_pn_capture_history"

abbrev pub max_entries : ℕ
max_entries = 40

-- Seven days.
abbrev pub retention_ms : ℕ
retention_ms = 604800000

pub record CaptureHistoryEntry : Type 0 where
  pub word : String
  pub captured_at : String

-- `parse` is `none` where `JSON.parse` throws or gives no array, `time_of` where a date is invalid.
pub record Formats : Type 0 where
  pub parse : String → Option (List CaptureHistoryEntry)
  pub stringify : List CaptureHistoryEntry → String
  pub time_of : String → Option ℕ
  pub to_iso_string : ℕ → String
  pub trim : String → String
  pub to_lower_case : String → String

-- What the platform documents of them, for some entries and a time: an array is read back as it was
-- written, and so is a date.
pub record AreInverse (f : Formats) (entries : List CaptureHistoryEntry) (time : ℕ) : Type 0 where
  pub parse_stringify : f.parse (f.stringify entries) ≡ some entries
  pub time_of_iso : f.time_of (f.to_iso_string time) ≡ some time
  pub stringify_not_empty : (f.stringify entries == "") ≡ false

module _ (f : Formats) where
  -- `time >= now - RETENTION_MS`, over the integers.
  abbrev pub is_retained : (now : ℕ) → CaptureHistoryEntry → Bool
  is_retained now entry = elim (f.time_of entry.captured_at) [
    | none ↦ false
    | some time ↦ leb now (time + retention_ms)
  ]

  unfoldable pub prune : (now : ℕ) → List CaptureHistoryEntry → List CaptureHistoryEntry
  prune now entries = take max_entries (filter (is_retained now) entries)

  abbrev pub normalized : List String → List String
  normalized words =
      filter (λ word. not (word == "")) (map (λ word. f.to_lower_case (f.trim word)) words)

  -- The loop that puts each word that is not there in front.
  unfoldable pub add_words :
      (time : String) → List String → List CaptureHistoryEntry → List CaptureHistoryEntry
  add_words time [] next = next
  add_words time (word ∷ words) next = add_words time words (
      if any (λ (entry : CaptureHistoryEntry). entry.word == word) next
      then next
      else record { word = word; captured_at = time } ∷ next)

  module _ {World : Type 0} (kv : KeyValue World) where
    abbrev pub parsed : Option String → Option (List CaptureHistoryEntry)
    parsed none = none
    parsed (some raw) = if raw == "" then none else f.parse raw

    unfoldable pub load_capture_history : (now : ℕ) → World → List CaptureHistoryEntry
    unfolding prune
    load_capture_history now w = elim (parsed (kv.get_item w capture_history_key)) [
      | none ↦ []
      | some entries ↦ prune now entries
    ]

    unfoldable pub record_captured_words : List String → (loaded marked saved : ℕ) → World → World
    unfolding add_words load_capture_history prune
    record_captured_words words loaded marked saved w = elim (normalized words) [
      | [] ↦ w
      | word ∷ more ↦ kv.set_item w capture_history_key (
          f.stringify (
            prune saved
              (add_words (f.to_iso_string marked) (word ∷ more) (load_capture_history loaded w))))
    ]

    unfoldable pub recent_capture_words : (limit now : ℕ) → World → List String
    unfolding load_capture_history
    recent_capture_words limit now w =
        map (λ (entry : CaptureHistoryEntry). entry.word) (take limit (load_capture_history now w))
