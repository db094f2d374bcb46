-- ===== src/Words/Meanings.antt =====
-- The gloss that is shown for a word: frontend/src/utils/meanings.ts.
-- The regular expressions of the source and the platform's operations on texts are the parameter
-- `Glosses`.
pub mod Shown
mod Tests
use Prim.Native.String
use project_pn.Prelude.{
  ℕ, String, Bool, true, false, not, ◌&&◌, ◌||◌, Option, none, some, List, [], ◌∷◌, ◌++◌, ◌==◌, map,
  filter, find, length, eqb, leb, ltb, if◌then◌else◌, contains, or_option,
}

pub record MeaningFields : Type 0 where
  pub personal_note : Option String
  pub definition : String
  pub short_definition : Option String
  pub localized_definition : Option String
  pub localized_short_definition : Option String

pub record Glosses : Type 0 where
  pub trim : String → String
  -- `replace(/[.。]+$/u, '')`
  pub without_dots : String → String
  -- the matches of HANGUL_TOKEN
  pub hangul_tokens : String → List String
  -- KOREAN_COMMA_LIST
  pub is_comma_list : String → Bool
  -- a text with `~` or `…`
  pub has_pattern : String → Bool
  -- `split(/\s+/).filter(Boolean)`
  pub words : String → List String
  -- `/^to\s+/i`
  pub is_to_phrase : String → Bool
  -- the group of `/^to\s+([a-z]+)/i`, in lower case
  pub to_verb : String → Option String
  pub ends_with : String → String → Bool
  pub length_of : String → ℕ
  pub without_last_two : String → String

abbrev pub korean_gloss_stopwords : List String
korean_gloss_stopwords =
    "것" ∷ "수" ∷ "등" ∷ "등등" ∷ "및" ∷ "또는" ∷ "혹은" ∷ "그리고" ∷ "또" ∷ "더" ∷ "임" ∷ "음" ∷ "듯" ∷ "바" ∷ "데"
    ∷ []

-- A text read as a condition.
abbrev pub written : Option String → Option String
written none = none
written (some text) = if text == "" then none else some text

abbrev pub last_of : List String → Option String
last_of [] = none
last_of (token ∷ tokens) = or_option (last_of tokens) (some token)

-- The last token that passes.
abbrev pub find_last : (String → Bool) → List String → Option String
find_last p [] = none
find_last p (token ∷ tokens) = or_option (find_last p tokens) (if p token then some token else none)

module _ (g : Glosses) where
  unfoldable pub trim_meaning : Option String → Option String
  trim_meaning none = none
  trim_meaning (some value) =
      if g.trim value == "" then none else written (some (g.trim (g.without_dots (g.trim value))))

  abbrev pub is_simple_value : String → Bool
  is_simple_value value =
      if g.has_pattern value
      then ltb 0 (length (g.words value)) && leb (length (g.words value)) 6
      else elim (g.hangul_tokens value) [
        | [] ↦
            not (eqb (length (g.words value)) 0 || ltb 4 (length (g.words value)))
            && not (g.is_to_phrase value)
        | token ∷ tokens ↦
            if eqb (length tokens) 0
            then not (contains korean_gloss_stopwords token)
            else leb (length tokens) 2 && g.is_comma_list value
      ]

  unfoldable pub is_simple_gloss : Option String → Bool
  unfolding trim_meaning
  is_simple_gloss text = elim (trim_meaning text) [
    | none ↦ false
    | some value ↦ is_simple_value value
  ]

  unfoldable pub normalize_korean_predicate : String → String
  normalize_korean_predicate token =
      let t = g.trim token in
      if ltb (g.length_of t) 2
      then t
      else if g.ends_with t "하는" && ltb 2 (g.length_of t)
      then String.◌++◌ (g.without_last_two t) "하다"
      else if g.ends_with t "되는" && ltb 2 (g.length_of t)
      then String.◌++◌ (g.without_last_two t) "되다"
      else if g.ends_with t "이는" && ltb 2 (g.length_of t)
      then String.◌++◌ (g.without_last_two t) "이다"
      else t

  abbrev pub is_preferred_verb_lemma : String → Bool
  is_preferred_verb_lemma token =
      (g.ends_with token "하다" || g.ends_with token "되다") || g.ends_with token "이다"

  abbrev pub is_verb_like : String → Bool
  is_verb_like token =
      ((g.ends_with token "다" || g.ends_with token "하는") || g.ends_with token "되는")
      || g.ends_with token "이는"

  -- The tokens that can be a headword.
  unfoldable pub headword_tokens : String → List String
  unfolding normalize_korean_predicate
  headword_tokens value =
      filter (λ t. ltb 0 (g.length_of t) && not (contains korean_gloss_stopwords t))
        (map normalize_korean_predicate (g.hangul_tokens value))

  abbrev pub headword_among : List String → Option String
  headword_among tokens = elim (find_last is_preferred_verb_lemma tokens) [
    | some lemma ↦ some lemma
    | none ↦ elim (find_last is_verb_like tokens) [
      | some verb ↦ some (normalize_korean_predicate verb)
      | none ↦ last_of tokens
    ]
  ]

  unfoldable pub extract_korean_headword : Option String → Option String
  unfolding trim_meaning headword_tokens
  extract_korean_headword text = elim (trim_meaning text) [
    | none ↦ none
    | some value ↦ headword_among (headword_tokens value)
  ]

  unfoldable pub simplify_english_gloss : Option String → Option String
  unfolding is_simple_gloss
  simplify_english_gloss none = none
  simplify_english_gloss (some text) =
      if (text == "") || is_simple_gloss (some text) then some text else g.to_verb text

  -- The value where it is a simple gloss.
  abbrev pub simple : Option String → Option String
  simple none = none
  simple (some value) = if is_simple_gloss (some value) then some value else none

  unfoldable pub prefer_simple_gloss : (short_text full_text : Option String) → Option String
  unfolding trim_meaning extract_korean_headword simplify_english_gloss
  prefer_simple_gloss short_text full_text =
      let short_value = trim_meaning short_text in
      let full_value = trim_meaning full_text in
      let value = or_option short_value full_value in
      or_option (simple short_value) (
        or_option (simple full_value) (
          or_option (written (extract_korean_headword value))
            (or_option (written (simplify_english_gloss value)) value)))

  unfoldable pub display_gloss : MeaningFields → Option String
  unfolding trim_meaning prefer_simple_gloss
  display_gloss item = or_option (trim_meaning item.personal_note) (
      or_option
        (written (prefer_simple_gloss item.localized_short_definition item.localized_definition))
        (or_option (written (prefer_simple_gloss item.short_definition (some item.definition))) (
          or_option (trim_meaning item.localized_short_definition) (
            or_option (trim_meaning item.localized_definition) (
              or_option (trim_meaning item.short_definition)
                (trim_meaning (some item.definition)))))))
