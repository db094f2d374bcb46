-- ===== src/Words/Meanings/Shown.antt =====
-- When a gloss is shown: displayGloss of frontend/src/utils/meanings.ts.
use project_pn.Prelude.{
  ◌≡◌, inl, inr, refl, ap, ◌∙◌, String, true, false, Option, none, some, ◌==◌, Bool-cases,
  or_option, is_some,
}
use project_pn.Words.Meanings.{
  MeaningFields, Glosses, written, trim_meaning, is_simple_gloss, simple, extract_korean_headword,
  simplify_english_gloss, prefer_simple_gloss, display_gloss,
}

-- No text, or one that is not empty.
abbrev pub IsWritten : Option String → Type 0
IsWritten none = Unit
IsWritten (some text) = (text == "") ≡ false

written-IsWritten : (o : Option String) → IsWritten (written o)
written-IsWritten none = tt
written-IsWritten (some text) = elim (Bool-cases (text == "")) [
  | inl empty ↦ rw empty tt
  | inr full ↦ rw full full
]

or_option-IsWritten : (a b : Option String) → IsWritten a → IsWritten b → IsWritten (or_option a b)
or_option-IsWritten none b ha hb = hb
or_option-IsWritten (some text) b ha hb = ha

written-some : (o : Option String) → IsWritten o → written o ≡ o
written-some none h = refl
written-some (some text) h = rw h refl

-- The last of a chain decides that something is chosen.
last-some :
    (a b c d e : Option String)
    → is_some e ≡ true
    → is_some (or_option a (or_option b (or_option c (or_option d e)))) ≡ true
last-some (some text) b c d e h = refl
last-some none (some text) c d e h = refl
last-some none none (some text) d e h = refl
last-some none none none (some text) e h = refl
last-some none none none none e h = h

-- Where the second of a chain is there, what follows it does not matter.
first-some :
    (a b c d : Option String)
    → is_some b ≡ true
    → or_option a (or_option b c) ≡ or_option a (or_option b d)
first-some (some text) b c d h = refl
first-some none (some text) c d h = refl
first-some none none c d h = cc h

second-some :
    (a b c : Option String) → is_some b ≡ true → is_some (or_option a (or_option b c)) ≡ true
second-some (some text) b c h = refl
second-some none (some text) c h = refl
second-some none none c h = cc h

second-IsWritten :
    (a b c : Option String)
    → is_some b ≡ true
    → IsWritten a
    → IsWritten b
    → IsWritten (or_option a (or_option b c))
second-IsWritten (some text) b c h ha hb = ha
second-IsWritten none (some text) c h ha hb = hb
second-IsWritten none none c h ha hb = cc h

module _ (g : Glosses) where
  trim_meaning-IsWritten : (text : Option String) → IsWritten (trim_meaning g text)
  unfolding trim_meaning
  trim_meaning-IsWritten none = tt
  trim_meaning-IsWritten (some value) = elim (Bool-cases (g.trim value == "")) [
    | inl blank ↦ rw blank tt
    | inr full ↦ rw full (written-IsWritten (some (g.trim (g.without_dots (g.trim value)))))
  ]

  simple-IsWritten : (o : Option String) → IsWritten o → IsWritten (simple g o)
  simple-IsWritten none h = tt
  simple-IsWritten (some value) h = elim (Bool-cases (is_simple_gloss g (some value))) [
    | inl short ↦ rw short h
    | inr long ↦ rw long tt
  ]

  prefer_simple_gloss-IsWritten : (s f : Option String) → IsWritten (prefer_simple_gloss g s f)
  unfolding prefer_simple_gloss
  prefer_simple_gloss-IsWritten s f =
      or_option-IsWritten _ _ (simple-IsWritten (trim_meaning g s) (trim_meaning-IsWritten s)) (
        or_option-IsWritten _ _ (simple-IsWritten (trim_meaning g f) (trim_meaning-IsWritten f)) (
          or_option-IsWritten _ _
            (written-IsWritten
              (extract_korean_headword g (or_option (trim_meaning g s) (trim_meaning g f))))
            (or_option-IsWritten _ _
              (written-IsWritten
                (simplify_english_gloss g (or_option (trim_meaning g s) (trim_meaning g f))))
              (or_option-IsWritten _ _ (trim_meaning-IsWritten s) (trim_meaning-IsWritten f)))))

  -- A gloss is chosen from two texts of which one is not blank.
  prefer_simple_gloss-some :
      (s f : Option String)
      → is_some (or_option (trim_meaning g s) (trim_meaning g f)) ≡ true
      → is_some (prefer_simple_gloss g s f) ≡ true
  unfolding prefer_simple_gloss
  prefer_simple_gloss-some s f h =
      last-some (simple g (trim_meaning g s)) (simple g (trim_meaning g f))
        (written (extract_korean_headword g (or_option (trim_meaning g s) (trim_meaning g f))))
        (written (simplify_english_gloss g (or_option (trim_meaning g s) (trim_meaning g f))))
        (or_option (trim_meaning g s) (trim_meaning g f)) h

  -- What is shown where there is no localized gloss.
  abbrev english_gloss : MeaningFields → Option String
  english_gloss item =
      or_option (written (prefer_simple_gloss g item.short_definition (some item.definition))) (
        or_option (trim_meaning g item.localized_short_definition) (
          or_option (trim_meaning g item.localized_definition) (
            or_option (trim_meaning g item.short_definition)
              (trim_meaning g (some item.definition)))))

  abbrev localized_gloss : MeaningFields → Option String
  localized_gloss item =
      written (prefer_simple_gloss g item.localized_short_definition item.localized_definition)

  localized_gloss-some :
      (item : MeaningFields)
      → is_some (
          or_option
            (trim_meaning g item.localized_short_definition)
            (trim_meaning g item.localized_definition))
        ≡ true
      → is_some (localized_gloss item) ≡ true
  localized_gloss-some item h =
      let chosen =
        prefer_simple_gloss-some item.localized_short_definition item.localized_definition h in
      ap is_some (
        written-some _
          (prefer_simple_gloss-IsWritten item.localized_short_definition item.localized_definition))
      ∙ chosen

  -- Where a localized text is not blank, no English one is shown: with any other English texts the
  -- gloss is the same, and it is a text that is not empty.
  pub display_gloss-localized :
      (item : MeaningFields) (short_definition : Option String) (definition : String)
      → is_some (
          or_option
            (trim_meaning g item.localized_short_definition)
            (trim_meaning g item.localized_definition))
        ≡ true
      → (display_gloss g
            (record item { short_definition = short_definition; definition = definition })
          ≡ display_gloss g item)
        × (is_some (display_gloss g item) ≡ true)
        × IsWritten (display_gloss g item)
  unfolding display_gloss
  display_gloss-localized item short_definition definition h =
      let found = localized_gloss-some item h in
      let other = record item { short_definition = short_definition; definition = definition } in
      (
        first-some (trim_meaning g item.personal_note) (localized_gloss item) (english_gloss other)
            (english_gloss item) found,
        second-some (trim_meaning g item.personal_note) (localized_gloss item) (english_gloss item)
            found,
        second-IsWritten (trim_meaning g item.personal_note) (localized_gloss item)
            (english_gloss item) found (trim_meaning-IsWritten item.personal_note)
            (written-IsWritten
              (prefer_simple_gloss g item.localized_short_definition item.localized_definition)),
      )
