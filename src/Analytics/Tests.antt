-- ===== src/Analytics/Tests.antt =====
-- Runs of the analytics client, and their theorems at concrete inputs.
use project_pn.Prelude.{map, ◌≡◌, refl, true, List, [], ◌∷◌, ◌++◌, All, length}
use project_pn.Analytics.Event.{
  Json, text, array, object, element, end_of_array, member, end_of_object, web, Texts,
  AnalyticsEvent,
}
use project_pn.Analytics.Batches.{
  ClientOptions, AnalyticsClient, new_client, track, flush, push, Run, start, tracked, flushed,
}
use project_pn.Analytics.Uploads.{IsInOrder, IsDraining, concat, Run-IsInOrder}
use project_pn.Analytics.Screened.{IsScreened, Run-IsScreened}
use project_pn.Analytics.Typed.{IsTyped, Run-IsTyped}

-- Every text is a UUID, a date and in lower case.
abbrev plain_texts : Texts
plain_texts = record {
  to_lower_case = λ key. key;
  dashes_to_underscores = λ key. key;
  length_of = λ t. 1;
  is_uuid = λ t. true;
  is_date = λ t. true;
}

abbrev options : ClientOptions
options = record {
  enabled = true;
  platform = web;
  app_version = "1";
  session_id = "s";
  anonymous_id = "a";
}

-- { "card": [ { "token": "x" } ] }
abbrev with_token : Json
with_token = object (
    member "card" (array (element (object (member "token" (text "x") end_of_object)) end_of_array))
      end_of_object)

abbrev with_rating : Json
with_rating = object (member "rating" (text "good") end_of_object)

refused_test : (track plain_texts options "card_rated" with_token "t" "u" "now" new_client).1 ≡ []
unfolding track
refused_test = refl

-- The event with a token is refused, the other one taken.
abbrev refused : AnalyticsClient × List AnalyticsEvent
refused = track plain_texts options "card_rated" with_token "t" "u" "now" new_client

abbrev taken : AnalyticsClient × List AnalyticsEvent
taken = track plain_texts options "card_rated" with_rating "t" "u" "now" refused.0

abbrev run : Run plain_texts options ([] ++ refused.1 ++ taken.1) (flush true taken.0)
run = flushed (
    tracked (tracked start "card_rated" with_token "t" "u" "now") "card_rated" with_rating "t" "u"
      "now")

uploaded_test : map length (flush true taken.0).uploads ≡ 1 ∷ []
unfolding track push
uploaded_test = refl

Run-IsInOrder_example :
    IsInOrder ([] ++ refused.1 ++ taken.1) (flush true taken.0)
    × IsDraining true (flush true taken.0)
Run-IsInOrder_example = Run-IsInOrder plain_texts options run

Run-IsScreened_example : All (IsScreened plain_texts) (concat (flush true taken.0).uploads)
Run-IsScreened_example = Run-IsScreened plain_texts options run

Run-IsTyped_example : All (IsTyped plain_texts) (concat (flush true taken.0).uploads)
Run-IsTyped_example = Run-IsTyped plain_texts options run
