-- ===== src/Analytics/Typed.antt =====
-- The type of the uploaded events: AnalyticsEvent and validateAnalyticsEvent of
-- packages/api/src/analytics.ts, with frontend/src/analytics/analytics.ts.
use project_pn.Prelude.{
  ◌≡◌, inl, inr, refl, sym, ap, subst, String, Bool, true, false, not, ◌||◌, Option, none, some,
  List, [], ◌∷◌, ◌==◌, eqb, eqb_iff, ◌∙◌, contains, All, or_option, Bool-cases,
}
use project_pn.Analytics.Event.{
  Json, null, flag, number, text, array, object, Texts, AnalyticsEvent, analytics_event_names,
  analytics_event_version, is_no_record, first_no_uuid, uuid_error, validate_rest,
  validate_analytics_event, create_analytics_event, event_from,
}
use project_pn.Analytics.Batches.{ClientOptions, AnalyticsClient, input_of, event_of, Run}
use project_pn.Analytics.Uploads.{concat}
use project_pn.Analytics.Screened.{passed, or_none, unthrown, Run-uploaded}

-- What a checked event has as its properties: an object, or another truthy value that is no array.
abbrev pub IsObjectOrTruthy : Json → Type 0
IsObjectOrTruthy null = ⊥
IsObjectOrTruthy (flag b) = b ≡ true
IsObjectOrTruthy (number literal) = (literal == "0") ≡ false
IsObjectOrTruthy (text value) = (value == "") ≡ false
IsObjectOrTruthy (array rest) = ⊥
IsObjectOrTruthy (object rest) = Unit

-- What an event has once it is checked.
pub record IsTyped (texts : Texts) (event : AnalyticsEvent) : Type 0 where
  pub registered : contains analytics_event_names event.event_name ≡ true
  pub versioned : event.event_version ≡ analytics_event_version
  pub identified :
      All
        (λ id. texts.is_uuid id ≡ true)
        (event.event_id ∷ event.session_id ∷ event.trace_id ∷ event.anonymous_id ∷ [])
  pub dated : texts.is_date event.occurred_at ≡ true
  pub of_app : (event.app_version == "") ≡ false
  pub has_properties : IsObjectOrTruthy event.properties

not-false : (b : Bool) → not b ≡ false → b ≡ true
not-false true h = refl
not-false false h = cc h

left_none : (a b : Option String) → or_option a b ≡ none → a ≡ none
left_none none b h = refl
left_none (some message) b h = absurd (cc h)

left_false : (a b : Bool) → (a || b) ≡ false → a ≡ false
left_false true b h = h
left_false false b h = refl

module _ (texts : Texts) where
  record-IsObjectOrTruthy : (json : Json) → is_no_record texts json ≡ false → IsObjectOrTruthy json
  record-IsObjectOrTruthy null h = cc h
  record-IsObjectOrTruthy (flag b) h = not-false b h
  record-IsObjectOrTruthy (number literal) h = h
  record-IsObjectOrTruthy (text value) h = h
  record-IsObjectOrTruthy (array rest) h = cc h
  record-IsObjectOrTruthy (object rest) h = tt

  first_no_uuid-uuid :
      (name value : String) (entries : List (String × String))
      → texts.is_uuid value ≡ true
      → first_no_uuid texts ((name, value) ∷ entries) ≡ first_no_uuid texts entries
  first_no_uuid-uuid name value entries valid = rw valid refl

  first_no_uuid-other :
      (name value : String) (entries : List (String × String))
      → texts.is_uuid value ≡ false
      → first_no_uuid texts ((name, value) ∷ entries) ≡ some name
  first_no_uuid-other name value entries other = rw other refl

  uuid_error-none :
      (entries : List (String × String))
      → uuid_error texts (first_no_uuid texts entries) ≡ none
      → All (λ entry. texts.is_uuid entry.1 ≡ true) entries
  uuid_error-none [] h = tt
  uuid_error-none ((name, value) ∷ entries) h = elim (Bool-cases (texts.is_uuid value)) [
    | inl valid ↦ (
      valid,
      uuid_error-none entries
          (ap (uuid_error texts) (sym (first_no_uuid-uuid name value entries valid)) ∙ h),
    )
    | inr other ↦
        absurd (cc (ap (uuid_error texts) (sym (first_no_uuid-other name value entries other)) ∙ h))
  ]

  validated-IsTyped :
      (event : AnalyticsEvent) → validate_analytics_event texts event ≡ none → IsTyped texts event
  unfolding validate_analytics_event validate_rest
  validated-IsTyped event h =
      let registered =
        passed (not (contains analytics_event_names event.event_name))
          "event_name is not registered" _ h in
      let versioned =
        passed (not (eqb event.event_version analytics_event_version)) "event_version is invalid" _
          registered.1 in
      let ids =
        uuid_error-none
          (("event_id", event.event_id)
            ∷ ("session_id", event.session_id)
            ∷ ("trace_id", event.trace_id)
            ∷ ("anonymous_id", event.anonymous_id)
            ∷ [])
          (left_none _ (validate_rest texts event) versioned.1) in
      let named = or_none _ (validate_rest texts event) versioned.1 in
      let dated = passed _ "occurred_at must be RFC3339" _ named in
      let of_app = passed _ "app_version is required" _ dated.1 in
      let is_record = passed _ "properties is required" _ of_app.1 in
      record {
        registered = not-false _ registered.0;
        versioned =
            (eqb_iff event.event_version analytics_event_version).0 (not-false _ versioned.0);
        identified = ids;
        dated = not-false _ dated.0;
        of_app = left_false _ _ of_app.0;
        has_properties = record-IsObjectOrTruthy event.properties is_record.0;
      }

  module _ (options : ClientOptions) where
    made-IsTyped :
        (event_name : String) (properties : Json) (trace_id uuid now : String)
        (event : AnalyticsEvent)
        → event_of texts options event_name properties trace_id uuid now ≡ inr event
        → IsTyped texts event
    unfolding event_of create_analytics_event
    made-IsTyped event_name properties trace_id uuid now event h =
        let given =
          event_from texts uuid now (input_of texts options event_name properties trace_id) in
        let made = unthrown texts (validate_analytics_event texts given) given event h in
        subst (IsTyped texts) made.1 (validated-IsTyped given made.0)

    -- Every event that is ever uploaded has a registered name and the current version; its four
    -- identifiers are UUIDs, its time is a date, its version of the app is not empty, and its properties
    -- are an object or another truthy value that is no array.
    pub Run-IsTyped :
        {events : List AnalyticsEvent} {c : AnalyticsClient}
        → Run texts options events c
        → All (IsTyped texts) (concat c.uploads)
    Run-IsTyped run = Run-uploaded texts options (IsTyped texts) made-IsTyped run
