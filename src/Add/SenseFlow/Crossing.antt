-- ===== src/Add/SenseFlow/Crossing.antt =====
-- Lookups that cross: frontend/src/hooks/useSenseFlow.ts.
use project_pn.Prelude.{◌≡◌, refl, String, false, Option, none, some, List, [], ◌∷◌, ◌==◌, or_else}
use project_pn.Add.Senses.{SenseOption}
use project_pn.Add.SenseFlow.{
  first_lookup, SenseLookup, SenseFlow, non_blank, lookup, senses_shown, senses_found,
}

-- The request of a first lookup.
abbrev pub asked : (String → String) → String → String → Option String → Option String → SenseLookup
asked trim text pos context language = record {
  kind = first_lookup;
  text = trim text;
  part_of_speech = some pos;
  word_id = none;
  force = false;
  source_context = non_blank (trim (or_else context ""));
  language_code = language;
}

-- When a second word is looked up before the first one's senses are there, and these come last,
-- the sheet shows the first word's senses under the second word; and it has stopped showing that a
-- lookup runs when only the second had been answered.
pub first-senses-shown :
    (t trim : String → String) (s : SenseFlow) (a b pos : String)
    (context language deck : Option String) (of_a of_b : List SenseOption) (x : SenseOption)
    → s.lookups ≡ []
    → (trim a == "") ≡ false
    → (trim b == "") ≡ false
    → let crossed : SenseFlow =
        lookup trim b pos context language deck (lookup trim a pos context language deck s) in
      let answered_b : SenseFlow =
        senses_found t first_lookup of_b
          (record crossed { lookups = asked trim a pos context language ∷ [] }) in
      let answered_a : SenseFlow =
        senses_found t first_lookup (x ∷ of_a) (record answered_b { lookups = [] }) in
      (crossed.lookups ≡ asked trim a pos context language ∷ asked trim b pos context language ∷ [])
      × (answered_b.looking_up ≡ false)
      × (answered_a.query ≡ trim b)
      × (answered_a.options ≡ x ∷ of_a)
unfolding lookup senses_found senses_shown
first-senses-shown t trim s a b pos context language deck of_a [] x h ha hb =
    rw (hb, ha, h) (refl, refl, refl, refl)
first-senses-shown t trim s a b pos context language deck of_a (y ∷ of_b) x h ha hb =
    rw (hb, ha, h) (refl, refl, refl, refl)
