-- ===== src/Add/SenseFlow/State.antt =====
-- The state of the sheet on which a sense is added: frontend/src/hooks/useSenseFlow.ts.
use project_pn.Prelude.{String, Bool, false, Option, none, List, []}
use project_pn.Add.Senses.{SenseOption}

pub data LookupKind : Type 0 where
  first_lookup force_existing force_with_pos : LookupKind

-- What `lookupWord` is called with.
pub record SenseLookup : Type 0 where
  pub kind : LookupKind
  pub text : String
  pub part_of_speech : Option String
  pub word_id : Option String
  pub force : Bool
  pub source_context : Option String
  pub language_code : Option String

-- What `addLearningItem` is called with, the display language aside.
pub record SenseAddition : Type 0 where
  pub word_sense_id : String
  pub deck_id : Option String
  pub source_context : Option String
  pub personal_note : Option String

pub data SenseNotice : Type 0 where
  on_added : (word_sense_id : String) → SenseNotice
  on_dismiss : SenseNotice

pub record SenseFlow : Type 0 where
  pub picker_visible : Bool
  pub query : String
  pub options : List SenseOption
  pub looking_up : Bool
  pub confirming : Bool
  pub error : Option String
  pub suggest_pos_prompt : Bool
  pub last_text : String
  pub last_pos : String
  pub last_source_context : String
  pub last_language_code : Option String
  pub last_deck_id : Option String
  pub confirming_ref : Bool
  pub lookups : List SenseLookup
  pub additions : List SenseAddition
  pub told : List SenseNotice

abbrev pub closed_flow : SenseFlow
closed_flow = record {
  picker_visible = false;
  query = "";
  options = [];
  looking_up = false;
  confirming = false;
  error = none;
  suggest_pos_prompt = false;
  last_text = "";
  last_pos = "Any";
  last_source_context = "";
  last_language_code = none;
  last_deck_id = none;
  confirming_ref = false;
  lookups = [];
  additions = [];
  told = [];
}
