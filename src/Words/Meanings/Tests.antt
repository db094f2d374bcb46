-- ===== src/Words/Meanings/Tests.antt =====
-- A shown gloss, and the theorem on glosses at a concrete input.
use project_pn.Prelude.{◌≡◌, refl, true, false, none, some, [], ◌∷◌, is_some}
use project_pn.Words.Meanings.{
  MeaningFields, Glosses, trim_meaning, is_simple_gloss, prefer_simple_gloss, display_gloss,
}
use project_pn.Words.Meanings.Shown.{IsWritten, display_gloss-localized}

-- Texts of one Korean token, with nothing to trim.
abbrev one_token : Glosses
one_token = record {
  trim = λ text. text;
  without_dots = λ text. text;
  hangul_tokens = λ text. text ∷ [];
  is_comma_list = λ text. false;
  has_pattern = λ text. false;
  words = λ text. text ∷ [];
  is_to_phrase = λ text. false;
  to_verb = λ text. none;
  ends_with = λ text ending. false;
  length_of = λ text. 2;
  without_last_two = λ text. text;
}

abbrev bank : MeaningFields
bank = record {
  personal_note = none;
  definition = "a place for money";
  short_definition = some "bank";
  localized_definition = some "은행";
  localized_short_definition = none;
}

bank_test : display_gloss one_token bank ≡ some "은행"
unfolding display_gloss trim_meaning prefer_simple_gloss is_simple_gloss
bank_test = refl

display_gloss-localized_example :
    (display_gloss one_token (record bank { short_definition = none; definition = "" })
      ≡ display_gloss one_token bank)
    × (is_some (display_gloss one_token bank) ≡ true)
    × IsWritten (display_gloss one_token bank)
unfolding trim_meaning
display_gloss-localized_example = display_gloss-localized one_token bank none "" refl
