-- ===== src/Analytics/Batches.antt =====
-- The client that collects events and uploads them in batches: createAnalyticsClient of
-- frontend/src/analytics/analytics.ts. `uploads` are the calls of `upload`, in order; whether one
-- succeeds or fails makes no difference. The identifiers and the time of an event are arguments.
use project_pn.Prelude.{
  ℕ, ◌⊎◌, inl, inr, ◌≡◌, String, Bool, true, false, not, ◌||◌, none, List, [], ◌∷◌, ◌++◌,
  if◌then◌else◌, leb, length, take, drop,
}
use project_pn.Analytics.Event.{
  AnalyticsPlatform, AnalyticsEvent, CreateAnalyticsEventInput, Json, Texts, create_analytics_event,
}

abbrev pub max_batch_events : ℕ
max_batch_events = 100

-- `AnalyticsClientOptions`, and the two identifiers of the app's start.
pub record ClientOptions : Type 0 where
  pub enabled : Bool
  pub platform : AnalyticsPlatform
  pub app_version : String
  pub session_id : String
  pub anonymous_id : String

pub record AnalyticsClient : Type 0 where
  pub pending : List AnalyticsEvent
  pub flushing : Bool
  pub uploads : List (List AnalyticsEvent)

abbrev pub new_client : AnalyticsClient
new_client = record { pending = []; flushing = false; uploads = [] }

abbrev pub is_nil : List AnalyticsEvent → Bool
is_nil [] = true
is_nil (event ∷ events) = false

abbrev pub has_batch : AnalyticsClient → Bool
has_batch c = leb max_batch_events (length c.pending)

-- `void` or `null`: what the call gives is awaited by no other call.
unfoldable pub flush : (enabled : Bool) → AnalyticsClient → AnalyticsClient
flush enabled c = if not enabled || is_nil c.pending then c else if c.flushing then c else record {
  pending = drop max_batch_events c.pending;
  flushing = true;
  uploads = c.uploads ++ take max_batch_events c.pending ∷ [];
}

-- The `finally` of an upload.
unfoldable pub upload_settled : (enabled : Bool) → AnalyticsClient → AnalyticsClient
unfolding flush
upload_settled enabled c =
    if has_batch c
    then flush enabled (record c { flushing = false })
    else record c { flushing = false }

unfoldable pub push : (enabled : Bool) → AnalyticsEvent → AnalyticsClient → AnalyticsClient
unfolding flush
push enabled event c =
    let pushed : AnalyticsClient = record c { pending = c.pending ++ event ∷ [] } in
    if has_batch pushed then flush enabled pushed else pushed

module _ (texts : Texts) (options : ClientOptions) where
  abbrev pub input_of :
      (event_name : String) (properties : Json) (trace_id : String) → CreateAnalyticsEventInput
  input_of event_name properties trace_id = record {
    event_name = event_name;
    event_id = none;
    occurred_at = none;
    session_id = options.session_id;
    trace_id = trace_id;
    anonymous_id = options.anonymous_id;
    platform = options.platform;
    app_version = options.app_version;
    properties = properties;
  }

  -- The event that `track` makes, or the message of the error that it throws.
  unfoldable pub event_of :
      (event_name : String) (properties : Json) (trace_id uuid now : String)
      → String ⊎ AnalyticsEvent
  unfolding create_analytics_event
  event_of event_name properties trace_id uuid now =
      create_analytics_event texts uuid now (input_of event_name properties trace_id)

  -- The client after `track`, which throws where the event is refused, and the event it took.
  unfoldable pub track :
      (event_name : String) (properties : Json) (trace_id uuid now : String)
      → AnalyticsClient
      → AnalyticsClient × List AnalyticsEvent
  unfolding event_of
  track event_name properties trace_id uuid now c =
      if not options.enabled
      then (c, [])
      else elim (event_of event_name properties trace_id uuid now) [
        | inl message ↦ (c, [])
        | inr event ↦ (push options.enabled event c, event ∷ [])
      ]

  -- A run of the client, with the events that `track` took, in order.
  pub data Run : List AnalyticsEvent → AnalyticsClient → Type 0 where
    start : Run [] new_client
    tracked :
        {events : List AnalyticsEvent} {c : AnalyticsClient}
        → Run events c
        → (event_name : String) (properties : Json) (trace_id uuid now : String)
        → Run
            (events ++ (track event_name properties trace_id uuid now c).1)
            (track event_name properties trace_id uuid now c).0
    flushed :
        {events : List AnalyticsEvent} {c : AnalyticsClient}
        → Run events c
        → Run events (flush options.enabled c)
    settled :
        {events : List AnalyticsEvent} {c : AnalyticsClient}
        → Run events c
        → c.flushing ≡ true
        → Run events (upload_settled options.enabled c)
