-- ===== src/Add/AnkiImport/Tests.antt =====
-- A run of the import, and its theorem at a concrete input.
use project_pn.Prelude.{◌≡◌, refl, String, true, false, none, some, List, [], ◌∷◌}
use project_pn.Add.AnkiImport.{
  AnkiCard, add_card, skip_card, overwrite_meaning, new_word, ImportPreview, AnkiImport,
  ImportEvent, previewed, action_chosen, import_pressed, cards_refused, import_run, cards_to_send,
}
use project_pn.Add.AnkiImport.Choices.{cards_to_send-decided}

abbrev card : String → AnkiCard
card front = record { front = front; back = "b"; tags = none; action = none }

abbrev data_of_text : ImportPreview
data_of_text = record {
  cards = card "x" ∷ card "y" ∷ card "z" ∷ [];
  items =
      record {
        index = 0;
        front = "x";
        back = "b";
        status = new_word;
        matched_senses = [];
        suggested_action = add_card;
      }
      ∷ record {
        index = 1;
        front = "y";
        back = "b";
        status = new_word;
        matched_senses = [];
        suggested_action = add_card;
      }
      ∷ [];
}

abbrev typed_text : AnkiImport
typed_text = record {
  csv_text = "x";
  preview = none;
  actions = [];
  loading = true;
  importing = false;
  error = none;
  result = none;
}

abbrev choosing : List ImportEvent
choosing =
    action_chosen 1 overwrite_meaning
    ∷ import_pressed
    ∷ cards_refused "down"
    ∷ action_chosen 1 skip_card
    ∷ []

cards_to_send-decided_example :
    cards_to_send (import_run (λ text. text) (previewed data_of_text ∷ choosing) typed_text)
    ≡ some (
        record (card "x") { action = some add_card }
        ∷ record (card "y") { action = some skip_card }
        ∷ record (card "z") { action = some skip_card }
        ∷ [])
cards_to_send-decided_example =
    cards_to_send-decided (λ text. text) choosing data_of_text typed_text
      (refl, (refl, (refl, (refl, tt))))
