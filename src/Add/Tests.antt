-- ===== src/Add/Tests.antt =====
-- Runs of the queue and the choice of a sense, and their theorems at concrete inputs.
use project_pn.Prelude.{
  List, ℕ, ◌≡◌, refl, ◌⊎◌, inl, false, arith, String, true, Option, none, some, [], ◌∷◌, map,
  contains, get, put, remove, get-put, get-remove,
}
use project_pn.Add.Senses.{SenseOption, best_match}
use project_pn.Add.Queue.{
  idle, AddJob, AddQueue, looking_up, new_job, render, append_jobs, set_jobs, take_next, run_worker,
  enqueue, dismiss, looked_up, added, pending_count, status_of, added_word,
}
use project_pn.Add.Runs.{empty_queue, Steps, start, then_, enqueued, rendered, found, IsSound}
use project_pn.Add.Single.{Steps-IsSound}
use project_pn.Api.Client.{Error}
use project_pn.Add.Worker.{ids}
use project_pn.Add.Drain.{work_for, work_for-finishes}
use project_pn.Add.Stranded.{dismissed-strands}
use project_pn.Add.SenseFlow.{
  SenseFlow, first_lookup, closed_flow, lookup, senses_found, confirm, confirm_asked,
  looked_up as looked_up_step, then_ as flow_then, start as flow_start,
}
use project_pn.Add.SenseFlow.Confirming.{IsSingle, Steps-IsSingle}
use project_pn.Add.SenseFlow.Crossing.{asked, first-senses-shown}
use project_pn.Auth.Storage.{KeyValue, IsMap}
use project_pn.Add.CaptureHistory.{
  Formats, add_words, load_capture_history, record_captured_words, recent_capture_words,
}
use project_pn.Add.CaptureHistory.Recent.{recent-record_captured_words}
use project_pn.Add.BestMatch.{id_of, IsBest, best_match-IsBest}

abbrev sense : String → ℕ → Option ℕ → SenseOption
sense id order similarity = record {
  word_id = "w";
  word_sense_id = id;
  language_code = "en";
  lemma = "bank";
  normalized_text = "bank";
  part_of_speech = "noun";
  pronunciation = none;
  display_language_code = "ko";
  definition = "";
  short_definition = none;
  localized_definition = "";
  localized_short_definition = none;
  cefr_level = none;
  meaning_order = order;
  similarity = similarity;
  examples = [];
}

abbrev shore : SenseOption
shore = sense "shore" 2 (some 90000)

abbrev money : SenseOption
money = sense "money" 1 (some 20000)

abbrev row : SenseOption
row = sense "row" 0 none

best_match_test : best_match (money ∷ row ∷ shore ∷ []) ≡ some shore
unfolding best_match
best_match_test = refl

unscored_test : best_match (sense "a" 3 none ∷ row ∷ []) ≡ some row
unfolding best_match
unscored_test = refl

best_match-IsBest_example :
    (best : SenseOption) × (best_match (money ∷ row ∷ shore ∷ []) ≡ some best)
    × (contains (map id_of (money ∷ row ∷ shore ∷ [])) (id_of best) ≡ true)
    × IsBest (money ∷ row ∷ shore ∷ []) best
best_match-IsBest_example = best_match-IsBest money (row ∷ shore ∷ [])

abbrev plain : String → String
plain s = s

-- Two words are queued; the first one's senses come, and then its addition.
abbrev two_queued : AddQueue
two_queued =
    enqueue plain "2" "money" "noun" none none
      (render false (enqueue plain "1" "bank" "noun" none none empty_queue))

two_queued-Steps : Steps plain plain false empty_queue two_queued
unfolding enqueue append_jobs run_worker take_next set_jobs render
two_queued-Steps =
    then_
      (then_ (then_ start (enqueued empty_queue "1" "bank" "noun" none none (refl, tt) refl))
        (rendered (enqueue plain "1" "bank" "noun" none none empty_queue) false))
      (enqueued (render false (enqueue plain "1" "bank" "noun" none none empty_queue)) "2" "money"
        "noun" none none (refl, (refl, tt)) refl)

abbrev first_job : AddJob
first_job = new_job "bank" "noun" none none "1"

abbrev second_job : AddJob
second_job = new_job "money" "noun" none none "2"

all : Unit {0}
unfolding enqueue looked_up added best_match pending_count status_of render
all = tt

one_processing_test : two_queued.worker ≡ looking_up first_job
unfolding all
one_processing_test = refl

next_job_test :
    (added first_job "shore" (looked_up plain first_job (shore ∷ []) two_queued)).worker
    ≡ looking_up second_job
unfolding all
next_job_test = refl

status_test :
    status_of plain "bank"
      (render false (added first_job "shore" (looked_up plain first_job (shore ∷ []) two_queued)))
    ≡ added_word
unfolding all
status_test = refl

pending_test : pending_count (render false two_queued) ≡ 2
unfolding all
pending_test = refl

Steps-IsSound_example : IsSound false (looked_up plain first_job (shore ∷ []) two_queued)
unfolding enqueue append_jobs run_worker take_next set_jobs render
Steps-IsSound_example =
    Steps-IsSound {t = plain} {trim = plain}
      (then_ two_queued-Steps (found two_queued first_job (shore ∷ []) refl))

abbrev senses_of : AddJob → List SenseOption ⊎ Error
senses_of job = inl (shore ∷ [])

abbrev refusal_of : AddJob → String → Option Error
refusal_of job sense_id = none

drained_test : (work_for plain senses_of refusal_of 4 two_queued).worker ≡ idle
unfolding all work_for
drained_test = refl

work_for-finishes_example :
    ((work_for plain senses_of refusal_of 6 two_queued).worker ≡ idle)
    × (pending_count (render false (work_for plain senses_of refusal_of 6 two_queued)) ≡ 0)
    × (ids (render false (work_for plain senses_of refusal_of 6 two_queued)).shown ≡ "1" ∷ "2" ∷ [])
unfolding enqueue append_jobs run_worker take_next set_jobs render
work_for-finishes_example =
    work_for-finishes plain senses_of refusal_of plain two_queued 6 false two_queued-Steps
      (omega arith)

-- A word added to the empty queue right after a notice is dismissed, as it is shown then.
abbrev stranded : AddQueue
stranded = render false (enqueue plain "1" "bank" "noun" none none (dismiss "0" empty_queue))

dismissed-strands_example :
    ((work_for plain senses_of refusal_of 6 stranded).worker ≡ idle)
    × ((work_for plain senses_of refusal_of 6 stranded).shown ≡ first_job ∷ [])
dismissed-strands_example =
    dismissed-strands plain senses_of refusal_of plain "0" "1" "bank" "noun" none none empty_queue 6
      refl refl refl refl

abbrev asked_bank : SenseFlow
asked_bank = lookup plain "bank" "Any" none none none closed_flow

Steps-IsSingle_example : IsSingle (confirm plain "shore" none none none asked_bank)
Steps-IsSingle_example = Steps-IsSingle {t = plain} {trim = plain} (
    flow_then (flow_then flow_start (looked_up_step closed_flow "bank" "Any" none none none))
      (confirm_asked asked_bank "shore" none none none))

-- The senses of the second word, and then those of the first.
abbrev answered_money : SenseFlow
answered_money =
    senses_found plain first_lookup (money ∷ [])
      (record (lookup plain "money" "Any" none none none asked_bank) {
        lookups = asked plain "bank" "Any" none none ∷ [];
      })

abbrev answered_bank : SenseFlow
answered_bank =
    senses_found plain first_lookup (shore ∷ []) (record answered_money { lookups = [] })

first-senses-shown_example :
    ((lookup plain "money" "Any" none none none asked_bank).lookups
      ≡ asked plain "bank" "Any" none none ∷ asked plain "money" "Any" none none ∷ [])
    × ((answered_money).looking_up ≡ false)
    × ((answered_bank).query ≡ "money")
    × ((answered_bank).options ≡ shore ∷ [])
first-senses-shown_example =
    first-senses-shown plain plain closed_flow "bank" "money" "Any" none none none [] (money ∷ [])
      shore refl refl refl

abbrev table : KeyValue (List (String × String))
table = record { get_item = get; set_item = put; delete_item = remove }

table-IsMap : IsMap table
table-IsMap = record {
  get_set = λ w k v j. get-put w k j v;
  get_delete = λ w k j. get-remove w k j;
}

-- One capture is written, and every date is the time 1000.
abbrev one_capture : Formats
one_capture = record {
  parse = λ raw. some (record { word = "bank"; captured_at = "now" } ∷ []);
  stringify = λ entries. "[bank]";
  time_of = λ date. some 1000;
  to_iso_string = λ time. "now";
  trim = plain;
  to_lower_case = plain;
}

recent-record_captured_words_example :
    recent_capture_words one_capture table 8 2000
      (record_captured_words one_capture table ("bank" ∷ "" ∷ []) 900 1000 1100 [])
    ≡ "bank" ∷ []
unfolding load_capture_history add_words
recent-record_captured_words_example =
    recent-record_captured_words one_capture table table-IsMap ("bank" ∷ "" ∷ []) 900 1000 1100 2000
      8 [] "bank" [] refl (omega arith) (omega arith) tt
      (record { parse_stringify = refl; time_of_iso = refl; stringify_not_empty = refl })
