-- ===== src/Analytics/Screened.antt =====
-- No credential leaves the client: createAnalyticsClient of frontend/src/analytics/analytics.ts with
-- validateAnalyticsEvent of packages/api/src/analytics.ts.
use project_pn.Prelude.{
  ◌≡◌, inl, inr, refl, sym, subst, String, Bool, true, false, Option, none, some, List, [], ◌∷◌,
  ◌++◌, if◌then◌else◌, All, All-append, append-nil, or_option,
}
use project_pn.Analytics.Event.{
  Json, Texts, AnalyticsEvent, CreateAnalyticsEventInput, contains_forbidden_property,
  validate_analytics_event, create_analytics_event, event_from, unless_thrown,
}
use project_pn.Analytics.Forbidden.{HasForbidden, contains_forbidden_property-finds}
use project_pn.Analytics.Batches.{
  ClientOptions, AnalyticsClient, input_of, event_of, Run, start, tracked, flushed, settled,
}
use project_pn.Analytics.Uploads.{concat, track-cases, Run-IsInOrder}

pub passed :
    (b : Bool) (message : String) (rest : Option String)
    → (if b then some message else rest) ≡ none
    → (b ≡ false) × (rest ≡ none)
passed true message rest h = absurd (cc h)
passed false message rest h = (refl, h)

pub or_none : (a b : Option String) → or_option a b ≡ none → b ≡ none
or_none none b h = h
or_none (some message) b h = absurd (cc h)

All-left : (P : AnalyticsEvent → Type 0) (xs ys : List AnalyticsEvent) → All P (xs ++ ys) → All P xs
All-left P [] ys h = tt
All-left P (x ∷ xs) ys h = (h.0, All-left P xs ys h.1)

module _ (texts : Texts) where
  validated :
      (event : AnalyticsEvent)
      → validate_analytics_event texts event ≡ none
      → contains_forbidden_property texts event.properties ≡ false
  unfolding validate_analytics_event
  validated event h =
      let registered = passed _ "event_name is not registered" _ h in
      let versioned = passed _ "event_version is invalid" _ registered.1 in
      let named = or_none _ _ versioned.1 in
      let dated = passed _ "occurred_at must be RFC3339" _ named in
      let of_app = passed _ "app_version is required" _ dated.1 in
      let is_record = passed _ "properties is required" _ of_app.1 in
      (passed _ "properties contains a forbidden credential field" none is_record.1).0

  pub unthrown :
      (thrown : Option String) (made event : AnalyticsEvent)
      → unless_thrown texts thrown made ≡ inr event
      → (thrown ≡ none) × (made ≡ event)
  unthrown none made event h = (refl, cc)
  unthrown (some message) made event h = absurd (cc h)

  created :
      (uuid now : String) (input : CreateAnalyticsEventInput) (event : AnalyticsEvent)
      → create_analytics_event texts uuid now input ≡ inr event
      → contains_forbidden_property texts event.properties ≡ false
  unfolding create_analytics_event
  created uuid now input event h =
      let made =
        unthrown (validate_analytics_event texts (event_from texts uuid now input))
          (event_from texts uuid now input) event h in
      subst (λ e. contains_forbidden_property texts e.properties ≡ false) made.1
        (validated (event_from texts uuid now input) made.0)

  -- No key of an event's properties is forbidden.
  abbrev pub IsScreened : AnalyticsEvent → Type 0
  IsScreened event = ¬ HasForbidden texts event.properties

  module _ (options : ClientOptions) where
    tracked-IsScreened :
        (event_name : String) (properties : Json) (trace_id uuid now : String)
        (event : AnalyticsEvent)
        → event_of texts options event_name properties trace_id uuid now ≡ inr event
        → IsScreened event
    unfolding event_of
    tracked-IsScreened event_name properties trace_id uuid now event h f =
        let clean : contains_forbidden_property texts event.properties ≡ false =
          created uuid now (input_of texts options event_name properties trace_id) event h in
        let found : contains_forbidden_property texts event.properties ≡ true =
          (contains_forbidden_property-finds texts event.properties).1 f in
        cc (clean, found)

    -- What holds of each event that is made holds of each that is tracked.
    module _ (P : AnalyticsEvent → Type 0)
        (made-P : (event_name : String) (properties : Json) (trace_id uuid now : String)
            (event : AnalyticsEvent)
          → event_of texts options event_name properties trace_id uuid now ≡ inr event
          → P event) where
      Run-tracked :
          {events : List AnalyticsEvent} {c : AnalyticsClient}
          → Run texts options events c
          → All P events
      Run-tracked start = tt
      Run-tracked (tracked {events} {c} run event_name properties trace_id uuid now) =
          elim (track-cases texts options event_name properties trace_id uuid now c) [
            | inl same ↦ rw (same, append-nil events) (Run-tracked run)
            | inr (event, on, made, took) ↦ rw took (
                All-append P events (event ∷ []) (Run-tracked run)
                  (made-P event_name properties trace_id uuid now event made, tt))
          ]
      Run-tracked (flushed run) = Run-tracked run
      Run-tracked (settled run f) = Run-tracked run

      pub Run-uploaded :
          {events : List AnalyticsEvent} {c : AnalyticsClient}
          → Run texts options events c
          → All P (concat c.uploads)
      Run-uploaded {events} {c} run =
          All-left P (concat c.uploads) c.pending
            (subst (All P) (sym (Run-IsInOrder texts options run).0.0) (Run-tracked run))

    -- No event that is ever uploaded has a forbidden key, at any depth of its properties.
    pub Run-IsScreened :
        {events : List AnalyticsEvent} {c : AnalyticsClient}
        → Run texts options events c
        → All IsScreened (concat c.uploads)
    Run-IsScreened run = Run-uploaded IsScreened tracked-IsScreened run
