-- ===== src/Add/SenseFlow.antt =====
-- The sheet on which a sense is looked up and added: frontend/src/hooks/useSenseFlow.ts.
-- Each `async` function is its part up to the request, which leaves the request in `lookups` or
-- `additions`, and the part for its answer. `told` lists the calls of the two callbacks.
pub mod Confirming
pub mod Crossing
mod State
pub use State.*
use Prim.Native.String
use project_pn.Prelude.{
  String, Bool, true, false, ◌&&◌, Option, none, some, List, [], ◌∷◌, ◌++◌, ◌==◌, ◌≡◌,
  if◌then◌else◌, or_else, or_option, is_some,
}
use project_pn.Api.Client.{Error, api_error, plain_error}
use project_pn.Add.Senses.{SenseOption}
use project_pn.Add.Queue.{message_of}

-- `text || undefined`
abbrev pub non_blank : String → Option String
non_blank text = if text == "" then none else some text

abbrev pub is_no_additional_senses_error : Error → Bool
is_no_additional_senses_error (plain_error message) = false
is_no_additional_senses_error (api_error status message none retryable) = false
is_no_additional_senses_error (api_error status message (some code) retryable) = code == "ADD-303"

abbrev ask : SenseLookup → SenseFlow → SenseFlow
ask request s = record s { lookups = s.lookups ++ request ∷ [] }

-- `trim` is the platform's.
module _ (trim : String → String) where
  unfoldable pub lookup :
      (text pos_filter : String) (source_context language_code deck_id : Option String)
      → SenseFlow
      → SenseFlow
  lookup text pos_filter source_context language_code deck_id s =
      if trim text == ""
      then s
      else ask
          (record {
            kind = first_lookup;
            text = trim text;
            part_of_speech = some pos_filter;
            word_id = none;
            force = false;
            source_context = non_blank (trim (or_else source_context ""));
            language_code = language_code;
          })
          (record s {
            last_text = trim text;
            last_pos = pos_filter;
            last_source_context = trim (or_else source_context "");
            last_language_code = language_code;
            last_deck_id = deck_id;
            query = trim text;
            error = none;
            suggest_pos_prompt = false;
            looking_up = true;
            options = [];
            picker_visible = true;
          })

  -- `rememberContext`: the context, and the flow that remembers it.
  abbrev pub context_of : Option String → SenseFlow → String
  context_of source_context s = trim (or_else source_context s.last_source_context)

  abbrev pub remember_context : Option String → SenseFlow → SenseFlow
  remember_context source_context s = record s {
    last_source_context =
        if is_some source_context then context_of source_context s else s.last_source_context;
  }

  -- What `forceExisting` and `forceWithPos` share.
  unfoldable pub force_lookup :
      LookupKind → (part_of_speech word_id source_context : Option String) → SenseFlow → SenseFlow
  force_lookup kind part_of_speech word_id source_context s =
      ask
        (record {
          kind = kind;
          text = s.last_text;
          part_of_speech = part_of_speech;
          word_id = word_id;
          force = true;
          source_context = non_blank (context_of source_context s);
          language_code = s.last_language_code;
        })
        (remember_context source_context
          (record s { error = none; suggest_pos_prompt = false; looking_up = true }))

  unfoldable pub force_existing_lookup : (word_id : String) → Option String → SenseFlow → SenseFlow
  unfolding force_lookup
  force_existing_lookup word_id source_context s =
      force_lookup force_existing none (some word_id) source_context s

  unfoldable pub force_lookup_with_pos : (pos : String) → Option String → SenseFlow → SenseFlow
  unfolding force_lookup
  force_lookup_with_pos pos source_context s =
      force_lookup force_with_pos (some pos) none source_context s

  unfoldable pub confirm :
      (word_sense_id : String) (deck_id source_context personal_note : Option String)
      → SenseFlow
      → SenseFlow
  confirm word_sense_id deck_id source_context personal_note s =
      if s.confirming_ref then s else record s {
        error = none;
        confirming_ref = true;
        confirming = true;
        additions =
            s.additions
            ++ record {
              word_sense_id = word_sense_id;
              deck_id = or_option deck_id s.last_deck_id;
              source_context = non_blank (context_of source_context s);
              personal_note = non_blank (trim (or_else personal_note ""));
            }
              ∷ [];
      }

-- `t` translates the key of a message.
module _ (t : String → String) where
  -- The `try` part for the answer of a lookup.
  unfoldable pub senses_shown : LookupKind → List SenseOption → SenseFlow → SenseFlow
  senses_shown first_lookup [] s = record s {
    options = [];
    error = some (String.◌++◌ "ADD-303: " (t "add.error.noAdditionalSense"));
  }
  senses_shown first_lookup (o ∷ os) s = record s { options = o ∷ os }
  senses_shown force_existing os s = record s { options = os }
  senses_shown force_with_pos os s = record s { options = os }

  unfoldable pub senses_found : LookupKind → List SenseOption → SenseFlow → SenseFlow
  unfolding senses_shown
  senses_found kind options s = record (senses_shown kind options s) { looking_up = false }

  unfoldable pub lookup_failed : LookupKind → Error → SenseFlow → SenseFlow
  unfolding message_of
  lookup_failed first_lookup err s = record s {
    error = some (message_of t err);
    looking_up = false;
  }
  lookup_failed force_existing err s = record s {
    error = some (message_of t err);
    suggest_pos_prompt = if is_no_additional_senses_error err then true else s.suggest_pos_prompt;
    looking_up = false;
  }
  lookup_failed force_with_pos err s = record s {
    error = some (message_of t err);
    suggest_pos_prompt = if is_no_additional_senses_error err then true else s.suggest_pos_prompt;
    looking_up = false;
  }

  unfoldable pub confirm_failed : Error → SenseFlow → SenseFlow
  unfolding message_of
  confirm_failed err s = record s {
    error = some (message_of t err);
    confirming_ref = false;
    confirming = false;
  }

unfoldable pub confirmed : (word_sense_id : String) → SenseFlow → SenseFlow
confirmed word_sense_id s = record s {
  picker_visible = false;
  told = s.told ++ on_added word_sense_id ∷ [];
  confirming_ref = false;
  confirming = false;
}

unfoldable pub close : SenseFlow → SenseFlow
close s =
    if s.confirming_ref
    then s
    else record s { looking_up = false; picker_visible = false; told = s.told ++ on_dismiss ∷ [] }

-- What can happen next: an answer takes its request, any of those that run.
pub data Step (t trim : String → String) : SenseFlow → SenseFlow → Type 0 where
  looked_up :
      (s : SenseFlow) (text pos : String) (context language deck : Option String)
      → Step t trim s (lookup trim text pos context language deck s)
  forced :
      (s : SenseFlow) (word_id : String) (context : Option String)
      → Step t trim s (force_existing_lookup trim word_id context s)
  forced_pos :
      (s : SenseFlow) (pos : String) (context : Option String)
      → Step t trim s (force_lookup_with_pos trim pos context s)
  found :
      (s : SenseFlow) (before after : List SenseLookup) (r : SenseLookup)
      (options : List SenseOption)
      → s.lookups ≡ before ++ r ∷ after
      → Step t trim s (senses_found t r.kind options (record s { lookups = before ++ after }))
  not_found :
      (s : SenseFlow) (before after : List SenseLookup) (r : SenseLookup) (err : Error)
      → s.lookups ≡ before ++ r ∷ after
      → Step t trim s (lookup_failed t r.kind err (record s { lookups = before ++ after }))
  confirm_asked :
      (s : SenseFlow) (id : String) (deck context note : Option String)
      → Step t trim s (confirm trim id deck context note s)
  added :
      (s : SenseFlow) (before after : List SenseAddition) (r : SenseAddition)
      → s.additions ≡ before ++ r ∷ after
      → Step t trim s (confirmed r.word_sense_id (record s { additions = before ++ after }))
  not_added :
      (s : SenseFlow) (before after : List SenseAddition) (r : SenseAddition) (err : Error)
      → s.additions ≡ before ++ r ∷ after
      → Step t trim s (confirm_failed t err (record s { additions = before ++ after }))
  closed : (s : SenseFlow) → Step t trim s (close s)

pub data Steps (t trim : String → String) (s : SenseFlow) : SenseFlow → Type 0 where
  start : Steps t trim s s
  then_ : {r u : SenseFlow} → Steps t trim s r → Step t trim r u → Steps t trim s u
