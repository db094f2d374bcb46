-- ===== src/Add/CaptureHistory/Recent.antt =====
-- What is read back of recorded words: frontend/src/storage/captureHistory.ts.
use project_pn.Prelude.{
  ℕ, zero, suc, ◌+◌, ◌≤◌, inl, inr, ◌≡◌, refl, sym, ap, ◌∙◌, String, true, false, ◌||◌, some, List,
  [], ◌∷◌, arith, ◌==◌, map, filter, any, take, leb, if◌then◌else◌, Bool-cases, Option-cases,
  contains, take-map, All,
}
use project_pn.Auth.Storage.{KeyValue, IsMap}
use project_pn.Add.CaptureHistory.{
  CaptureHistoryEntry, Formats, AreInverse, max_entries, retention_ms, capture_history_key,
  is_retained, prune, normalized, add_words, parsed, load_capture_history, record_captured_words,
  recent_capture_words,
}

take_twice : (n : ℕ) (entries : List CaptureHistoryEntry) → take n (take n entries) ≡ take n entries
take_twice zero entries = refl
take_twice (suc n) [] = refl
take_twice (suc n) (entry ∷ entries) = ap (entry ∷◌) (take_twice n entries)

-- The words of the entries, without their dates.
abbrev pub words_of : List CaptureHistoryEntry → List String
words_of entries = map (λ (entry : CaptureHistoryEntry). entry.word) entries

-- The words after some are put in front where they are new.
abbrev pub in_front : List String → List String → List String
in_front [] known = known
in_front (word ∷ words) known = in_front words (if contains known word then known else word ∷ known)

any-words_of :
    (entries : List CaptureHistoryEntry) (word : String)
    → any (λ (entry : CaptureHistoryEntry). entry.word == word) entries
      ≡ contains (words_of entries) word
any-words_of [] word = refl
any-words_of (entry ∷ entries) word = ap (entry.word == word ||◌) (any-words_of entries word)

module _ (f : Formats) where
  words-add_words :
      (time : String) (words : List String) (entries : List CaptureHistoryEntry)
      → words_of (add_words f time words entries) ≡ in_front words (words_of entries)
  unfolding add_words
  words-add_words time [] entries = refl
  words-add_words time (word ∷ words) entries =
      elim (Bool-cases (contains (words_of entries) word)) [
        | inl there ↦ rw (any-words_of entries word, there) (words-add_words time words entries)
        | inr new ↦
            rw (any-words_of entries word, new)
              (words-add_words time words (record { word = word; captured_at = time } ∷ entries))
      ]

  -- Each entry is kept at a time.
  abbrev pub AllRetained : (now : ℕ) → List CaptureHistoryEntry → Type 0
  AllRetained now entries = All (λ entry. is_retained f now entry ≡ true) entries

  AllRetained-add_words :
      (time : String) (now : ℕ) (words : List String) (entries : List CaptureHistoryEntry)
      → ((word : String) → is_retained f now (record { word = word; captured_at = time }) ≡ true)
      → AllRetained now entries
      → AllRetained now (add_words f time words entries)
  unfolding add_words
  AllRetained-add_words time now [] entries fresh h = h
  AllRetained-add_words time now (word ∷ words) entries fresh h =
      elim (Bool-cases (any (λ (entry : CaptureHistoryEntry). entry.word == word) entries)) [
        | inl there ↦ rw there (AllRetained-add_words time now words entries fresh h)
        | inr new ↦ rw new (
            AllRetained-add_words time now words
              (record { word = word; captured_at = time } ∷ entries) fresh (fresh word, h))
      ]

  filter_retained :
      (now : ℕ) (entries : List CaptureHistoryEntry)
      → AllRetained now entries
      → filter (is_retained f now) entries ≡ entries
  filter_retained now [] h = refl
  filter_retained now (entry ∷ entries) h = rw h.0 (ap (entry ∷◌) (filter_retained now entries h.1))

  AllRetained-take :
      (n now : ℕ) (entries : List CaptureHistoryEntry)
      → AllRetained now entries
      → AllRetained now (take n entries)
  AllRetained-take zero now entries h = tt
  AllRetained-take (suc n) now [] h = tt
  AllRetained-take (suc n) now (entry ∷ entries) h = (h.0, AllRetained-take n now entries h.1)

  retained_earlier :
      (earlier now : ℕ) (entry : CaptureHistoryEntry)
      → earlier ≤ now
      → is_retained f now entry ≡ true
      → is_retained f earlier entry ≡ true
  retained_earlier earlier now entry le h = elim (Option-cases (f.time_of entry.captured_at)) [
    | inl invalid ↦ absurd (let g : false ≡ true = rw (invalid, is_retained) at h in cc)
    | inr (time, valid) ↦
        let g : leb now (time + retention_ms) ≡ true = rw (valid, is_retained) at h in
        rw (is_retained, valid) (ground (arith, g))
  ]

  AllRetained-earlier :
      (earlier now : ℕ) (entries : List CaptureHistoryEntry)
      → earlier ≤ now
      → AllRetained now entries
      → AllRetained earlier entries
  AllRetained-earlier earlier now [] le h = h
  AllRetained-earlier earlier now (entry ∷ entries) le h =
      (retained_earlier earlier now entry le h.0, AllRetained-earlier earlier now entries le h.1)

  prune-retained :
      (now : ℕ) (entries : List CaptureHistoryEntry)
      → AllRetained now entries
      → prune f now entries ≡ take max_entries entries
  unfolding prune
  prune-retained now entries h = ap (take max_entries) (filter_retained now entries h)

  module _ {World : Type 0} (kv : KeyValue World) where
    load-set_item :
        IsMap kv
        → (now time : ℕ) (w : World) (entries : List CaptureHistoryEntry)
        → AreInverse f entries time
        → load_capture_history f kv now (kv.set_item w capture_history_key (f.stringify entries))
          ≡ prune f now entries
    unfolding load_capture_history
    load-set_item map_laws now time w entries inverse =
        let got : kv.get_item (kv.set_item w capture_history_key (f.stringify entries))
              capture_history_key
            ≡ some (f.stringify entries) =
          map_laws.get_set w capture_history_key (f.stringify entries) capture_history_key in
        rw (load_capture_history, got, parsed, inverse.stringify_not_empty, inverse.parse_stringify)
          refl

    record-set_item :
        (words : List String) (loaded marked saved : ℕ) (w : World) (word : String)
        (more : List String)
        → normalized f words ≡ word ∷ more
        → record_captured_words f kv words loaded marked saved w
          ≡ kv.set_item w capture_history_key (
              f.stringify (
                prune f saved (
                  add_words f
                    (f.to_iso_string marked)
                    (normalized f words)
                    (load_capture_history f kv loaded w))))
    unfolding record_captured_words
    record-set_item words loaded marked saved w word more h = rw (record_captured_words, h) refl

    -- When the words that were loaded are kept until now, and the recording is not older than the
    -- retention, the recent words are the recorded ones, each new one in front of those before it
    -- and of the loaded ones, cut to forty and to the limit.
    pub recent-record_captured_words :
        (map_laws : IsMap kv) (words : List String) (loaded marked saved now limit : ℕ) (w : World)
        (word : String) (more : List String)
        → normalized f words ≡ word ∷ more
        → saved ≤ now
        → now ≤ marked + retention_ms
        → AllRetained now (load_capture_history f kv loaded w)
        → AreInverse f
            (take max_entries (
              add_words f
                (f.to_iso_string marked)
                (normalized f words)
                (load_capture_history f kv loaded w)))
            marked
        → recent_capture_words f kv limit now
            (record_captured_words f kv words loaded marked saved w)
          ≡ take limit (
              take max_entries
                (in_front (normalized f words) (words_of (load_capture_history f kv loaded w))))
    unfolding recent_capture_words
    recent-record_captured_words map_laws words loaded marked saved now limit w word more some_word
          before recent kept inverse =
        let next : List CaptureHistoryEntry =
          add_words f (f.to_iso_string marked) (normalized f words)
            (load_capture_history f kv loaded w) in
        let all_kept : AllRetained now next =
          AllRetained-add_words (f.to_iso_string marked) now (normalized f words)
            (load_capture_history f kv loaded w)
            (λ new. rw (is_retained, inverse.time_of_iso) (ground (arith, recent))) kept in
        let stored : record_captured_words f kv words loaded marked saved w
            ≡ kv.set_item w capture_history_key (f.stringify (take max_entries next)) =
          record-set_item words loaded marked saved w word more some_word
          ∙ ap (λ entries. kv.set_item w capture_history_key (f.stringify entries))
              (prune-retained saved next (AllRetained-earlier saved now next before all_kept)) in
        let read : load_capture_history f kv now
              (record_captured_words f kv words loaded marked saved w)
            ≡ take max_entries next =
          ap (load_capture_history f kv now) stored
          ∙ load-set_item map_laws now marked w (take max_entries next) inverse
          ∙ prune-retained now (take max_entries next)
              (AllRetained-take max_entries now next all_kept)
          ∙ take_twice max_entries next in
        ap (λ entries. words_of (take limit entries)) read
        ∙ sym (take-map (λ (entry : CaptureHistoryEntry). entry.word) limit (take max_entries next))
        ∙ ap (take limit) (
            sym (take-map (λ (entry : CaptureHistoryEntry). entry.word) max_entries next)
            ∙ ap (take max_entries) (
                words-add_words (f.to_iso_string marked) (normalized f words)
                  (load_capture_history f kv loaded w)))
