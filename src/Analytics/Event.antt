-- ===== src/Analytics/Event.antt =====
-- An event and its validation: packages/api/src/analytics.ts.
-- The properties are JSON; the pattern of a UUID, `Date.parse`, the random identifiers, and
-- `toLowerCase` and `replaceAll` on a key are the platform's.
use Prim.Native.String
use project_pn.Prelude.{
  ℕ, ◌⊎◌, inl, inr, String, Bool, true, false, not, ◌||◌, Option, none, some, List, [], ◌∷◌, ◌==◌,
  if◌then◌else◌, eqb, ltb, contains, or_else, or_option,
}

mutual
  pub data Json : Type 0 where
    null : Json
    flag : Bool → Json
    -- Its shortest decimal text.
    number : (literal : String) → Json
    text : String → Json
    array : Elements → Json
    object : Members → Json

  pub data Elements : Type 0 where
    end_of_array : Elements
    element : Json → Elements → Elements

  pub data Members : Type 0 where
    end_of_object : Members
    member : (key : String) → Json → Members → Members

abbrev pub analytics_event_version : ℕ
analytics_event_version = 1

abbrev pub analytics_event_names : List String
analytics_event_names =
    "session_started" ∷ "session_ended" ∷ "screen_viewed" ∷ "command_invoked" ∷ "command_completed"
    ∷ "validation_failed" ∷ "validation_succeeded" ∷ "auth_started" ∷ "auth_succeeded"
    ∷ "auth_failed" ∷ "verification_started" ∷ "verification_succeeded" ∷ "verification_failed"
    ∷ "word_capture_started" ∷ "word_capture_completed" ∷ "word_lookup_requested"
    ∷ "word_lookup_succeeded" ∷ "word_lookup_failed" ∷ "meaning_search_requested"
    ∷ "meaning_search_succeeded" ∷ "meaning_search_failed" ∷ "sense_selected" ∷ "sense_changed"
    ∷ "word_add_requested" ∷ "word_add_succeeded" ∷ "word_add_failed" ∷ "card_revealed"
    ∷ "card_rated" ∷ "review_succeeded" ∷ "review_failed" ∷ "deck_created" ∷ "deck_renamed"
    ∷ "deck_moved" ∷ "deck_deleted" ∷ "settings_changed" ∷ "api_request_completed"
    ∷ "api_request_failed" ∷ "error_displayed" ∷ "retry_requested" ∷ []

pub data AnalyticsPlatform : Type 0 where
  web ios android tauri extension backend : AnalyticsPlatform

-- No code of the client sets `authenticated_user_id`.
pub record AnalyticsEvent : Type 0 where
  pub event_name : String
  pub event_version : ℕ
  pub event_id : String
  pub occurred_at : String
  pub session_id : String
  pub trace_id : String
  pub anonymous_id : String
  pub authenticated_user_id : Option String
  pub platform : AnalyticsPlatform
  pub app_version : String
  pub properties : Json

pub record CreateAnalyticsEventInput : Type 0 where
  pub event_name : String
  pub event_id : Option String
  pub occurred_at : Option String
  pub session_id : String
  pub trace_id : String
  pub anonymous_id : String
  pub platform : AnalyticsPlatform
  pub app_version : String
  pub properties : Json

abbrev pub forbidden_keys : List String
forbidden_keys =
    "token" ∷ "access_token" ∷ "refresh_token" ∷ "id_token" ∷ "password" ∷ "secret"
    ∷ "authorization" ∷ "cookie" ∷ "set_cookie" ∷ []

-- What the code uses of strings, dates and random identifiers.
pub record Texts : Type 0 where
  pub to_lower_case : String → String
  pub dashes_to_underscores : String → String
  pub length_of : String → ℕ
  pub is_uuid : String → Bool
  pub is_date : String → Bool

module _ (texts : Texts) where
  abbrev pub is_forbidden_key : String → Bool
  is_forbidden_key key =
      contains forbidden_keys (texts.dashes_to_underscores (texts.to_lower_case key))

  unfoldable mutual
    pub contains_forbidden_property : Json → Bool
    contains_forbidden_property null = false
    contains_forbidden_property (flag b) = false
    contains_forbidden_property (number literal) = false
    contains_forbidden_property (text value) = false
    contains_forbidden_property (array rest) = some_element_forbidden rest
    contains_forbidden_property (object rest) = some_member_forbidden rest

    pub some_element_forbidden : Elements → Bool
    some_element_forbidden end_of_array = false
    some_element_forbidden (element value rest) =
        contains_forbidden_property value || some_element_forbidden rest

    pub some_member_forbidden : Members → Bool
    some_member_forbidden end_of_object = false
    some_member_forbidden (member key value rest) =
        (is_forbidden_key key || contains_forbidden_property value) || some_member_forbidden rest

  -- `!event.properties || Array.isArray(event.properties)`
  abbrev pub is_no_record : Json → Bool
  is_no_record null = true
  is_no_record (flag b) = not b
  is_no_record (number literal) = literal == "0"
  is_no_record (text value) = value == ""
  is_no_record (array rest) = true
  is_no_record (object rest) = false

  -- The loop over the identifiers: the first that is no UUID.
  abbrev pub first_no_uuid : List (String × String) → Option String
  first_no_uuid [] = none
  first_no_uuid ((name, value) ∷ entries) =
      if texts.is_uuid value then first_no_uuid entries else some name

  abbrev pub uuid_error : Option String → Option String
  uuid_error none = none
  uuid_error (some name) = some (String.◌++◌ name " must be a UUID")

  -- The checks after the identifiers.
  unfoldable pub validate_rest : AnalyticsEvent → Option String
  unfolding contains_forbidden_property
  validate_rest event =
      if not (texts.is_date event.occurred_at)
      then some "occurred_at must be RFC3339"
      else if event.app_version == "" || ltb 128 (texts.length_of event.app_version)
      then some "app_version is required"
      else if is_no_record event.properties
      then some "properties is required"
      else if contains_forbidden_property event.properties
      then some "properties contains a forbidden credential field"
      else none

  -- The message of the error that is thrown.
  unfoldable pub validate_analytics_event : AnalyticsEvent → Option String
  unfolding validate_rest
  validate_analytics_event event =
      if not (contains analytics_event_names event.event_name)
      then some "event_name is not registered"
      else if not (eqb event.event_version analytics_event_version)
      then some "event_version is invalid"
      else or_option
          (uuid_error (
            first_no_uuid (
              ("event_id", event.event_id)
              ∷ ("session_id", event.session_id)
              ∷ ("trace_id", event.trace_id)
              ∷ ("anonymous_id", event.anonymous_id)
              ∷ [])))
          (validate_rest event)

  -- `uuid` is a fresh identifier and `now` the current time.
  abbrev pub event_from : (uuid now : String) → CreateAnalyticsEventInput → AnalyticsEvent
  event_from uuid now input = record {
    event_name = input.event_name;
    event_version = analytics_event_version;
    event_id = or_else input.event_id uuid;
    occurred_at = or_else input.occurred_at now;
    session_id = input.session_id;
    trace_id = input.trace_id;
    anonymous_id = input.anonymous_id;
    authenticated_user_id = none;
    platform = input.platform;
    app_version = input.app_version;
    properties = input.properties;
  }

  abbrev pub unless_thrown : Option String → AnalyticsEvent → String ⊎ AnalyticsEvent
  unless_thrown none event = inr event
  unless_thrown (some message) event = inl message

  -- The event, or the message of the error that its validation throws.
  unfoldable pub create_analytics_event :
      (uuid now : String) → CreateAnalyticsEventInput → String ⊎ AnalyticsEvent
  unfolding validate_analytics_event
  create_analytics_event uuid now input =
      unless_thrown (validate_analytics_event (event_from uuid now input))
        (event_from uuid now input)
