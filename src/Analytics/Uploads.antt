-- ===== src/Analytics/Uploads.antt =====
-- What the client uploads: createAnalyticsClient of frontend/src/analytics/analytics.ts.
use project_pn.Prelude.{
  ◌≤◌, ◌<◌, ◌⊎◌, inl, inr, ◌≡◌, refl, sym, ap, ◌∙◌, String, Bool, true, false, not, ◌||◌, List, [],
  ◌∷◌, ◌++◌, append-nil, append_assoc, arith, if◌then◌else◌, Bool-cases, leb, length, take, drop,
  All, All-append, take-append-drop, length-take,
}
use project_pn.Analytics.Event.{AnalyticsEvent, Json, Texts}
use project_pn.Analytics.Batches.{
  is_nil, ClientOptions, AnalyticsClient, has_batch, max_batch_events, flush, upload_settled, push,
  event_of, track, Run, start, tracked, flushed, settled,
}

abbrev pub concat : List (List AnalyticsEvent) → List AnalyticsEvent
concat [] = []
concat (batch ∷ batches) = batch ++ concat batches

concat-append :
    (batches : List (List AnalyticsEvent)) (batch : List AnalyticsEvent)
    → concat (batches ++ batch ∷ []) ≡ concat batches ++ batch
concat-append [] batch = append-nil batch
concat-append (b ∷ batches) batch =
    ap (b ++◌) (concat-append batches batch) ∙ sym (append_assoc b (concat batches) batch)

-- The client after an upload of its first events is begun.
abbrev sent : AnalyticsClient → AnalyticsClient
sent c = record {
  pending = drop max_batch_events c.pending;
  flushing = true;
  uploads = c.uploads ++ take max_batch_events c.pending ∷ [];
}

one_event : (events : List AnalyticsEvent) → is_nil events ≡ false → 1 ≤ length events
one_event [] h = cc
one_event (event ∷ events) h = omega arith

flush-cases :
    (enabled : Bool) (c : AnalyticsClient)
    → (flush enabled c ≡ c)
      ⊎ ((enabled ≡ true) × (1 ≤ length c.pending) × (flush enabled c ≡ sent c))
unfolding flush
flush-cases enabled c = elim (Bool-cases (not enabled || is_nil c.pending)) [
  | inl nothing ↦ rw nothing (inl refl)
  | inr ready ↦ elim (Bool-cases c.flushing) [
    | inl busy ↦ rw (ready, busy) (inl refl)
    | inr free ↦
        rw (ready, free)
          (inr (ground (arith, ready), one_event c.pending (ground (arith, ready)), refl))
  ]
]

-- The batches hold the events in order before those that wait, and each is filled by one to a
-- hundred.
abbrev pub IsInOrder : List AnalyticsEvent → AnalyticsClient → Type 0
IsInOrder events c =
    (concat c.uploads ++ c.pending ≡ events)
    × All (λ batch. (1 ≤ length batch) × (length batch ≤ max_batch_events)) c.uploads

-- An upload runs, or less than a batch waits.
abbrev pub IsDraining : (enabled : Bool) → AnalyticsClient → Type 0
IsDraining enabled c =
    ((c.flushing ≡ true) × (enabled ≡ true)) ⊎ (length c.pending < max_batch_events)

IsInOrder-sent :
    (events : List AnalyticsEvent) (c : AnalyticsClient)
    → 1 ≤ length c.pending
    → IsInOrder events c
    → IsInOrder events (sent c)
IsInOrder-sent events c n h = (
  rw (concat-append c.uploads (take max_batch_events c.pending)) (
      append_assoc (concat c.uploads) (take max_batch_events c.pending)
        (drop max_batch_events c.pending)
      ∙ ap (concat c.uploads ++◌) (take-append-drop max_batch_events c.pending)
      ∙ h.0),
  All-append (λ batch. (1 ≤ length batch) × (length batch ≤ max_batch_events)) c.uploads
      (take max_batch_events c.pending ∷ []) h.1
      (
        (
          omega (arith, n, length-take max_batch_events c.pending),
          omega (arith, length-take max_batch_events c.pending),
        ),
        tt,
      ),
)

IsInOrder-flush :
    (enabled : Bool) (events : List AnalyticsEvent) (c : AnalyticsClient)
    → IsInOrder events c
    → IsInOrder events (flush enabled c)
IsInOrder-flush enabled events c h = elim (flush-cases enabled c) [
  | inl same ↦ rw same h
  | inr (e, n, sends) ↦ rw sends (IsInOrder-sent events c n h)
]

IsDraining-flush :
    (enabled : Bool) (c : AnalyticsClient)
    → IsDraining enabled c
    → IsDraining enabled (flush enabled c)
IsDraining-flush enabled c h = elim (flush-cases enabled c) [
  | inl same ↦ rw same h
  | inr (e, n, sends) ↦ rw sends (inl (refl, e))
]

batch_not_nil :
    (events : List AnalyticsEvent)
    → leb max_batch_events (length events) ≡ true
    → is_nil events ≡ false
batch_not_nil [] h = absurd (ground (arith, h))
batch_not_nil (event ∷ events) h = refl

-- With a batch that waits, a flush leaves an upload running.
flushing-flush :
    (enabled : Bool) (c : AnalyticsClient)
    → enabled ≡ true
    → has_batch c ≡ true
    → (flush enabled c).flushing ≡ true
unfolding flush
flushing-flush enabled c e h =
    let ready : (not enabled || is_nil c.pending) ≡ false = rw e (batch_not_nil c.pending h) in
    elim (Bool-cases c.flushing) [
      | inl busy ↦ rw (ready, busy) refl
      | inr free ↦ rw (ready, free) refl
    ]

made-cases :
    (made : String ⊎ AnalyticsEvent)
    → ((message : String) × (made ≡ inl message)) ⊎ ((event : AnalyticsEvent) × (made ≡ inr event))
made-cases (inl message) = inl (message, refl)
made-cases (inr event) = inr (event, refl)

pub track-cases :
    (texts : Texts) (options : ClientOptions) (event_name : String) (properties : Json)
    (trace_id uuid now : String) (c : AnalyticsClient)
    → (track texts options event_name properties trace_id uuid now c ≡ (c, []))
      ⊎ ((event : AnalyticsEvent) × (options.enabled ≡ true)
          × (event_of texts options event_name properties trace_id uuid now ≡ inr event)
          × (track texts options event_name properties trace_id uuid now c
              ≡ (push options.enabled event c, event ∷ [])))
unfolding track
track-cases texts options event_name properties trace_id uuid now c =
    elim (Bool-cases options.enabled) [
      | inr off ↦ rw off (inl refl)
      | inl on ↦
          elim (made-cases (event_of texts options event_name properties trace_id uuid now)) [
            | inl (message, throws) ↦ rw (on, throws) (inl refl)
            | inr (event, made) ↦
                inr (event, on, made, rw (on, made) (ap (λ b. (push b event c, event ∷ [])) on))
          ]
    ]

module _ (texts : Texts) (options : ClientOptions) where
  IsInOrder-push :
      (event : AnalyticsEvent) (events : List AnalyticsEvent) (c : AnalyticsClient)
      → IsInOrder events c
      → IsInOrder (events ++ event ∷ []) (push options.enabled event c)
  unfolding push
  IsInOrder-push event events c h =
      let pushed : AnalyticsClient = record c { pending = c.pending ++ event ∷ [] } in
      let order : IsInOrder (events ++ event ∷ []) pushed = (
        sym (append_assoc (concat c.uploads) c.pending (event ∷ [])) ∙ ap (◌++ (event ∷ [])) h.0,
        h.1,
      ) in
      elim (Bool-cases (has_batch pushed)) [
        | inl full ↦ rw full (IsInOrder-flush options.enabled (events ++ event ∷ []) pushed order)
        | inr few ↦ rw few order
      ]

  IsDraining-full :
      (c : AnalyticsClient)
      → options.enabled ≡ true
      → IsDraining options.enabled (if has_batch c then flush options.enabled c else c)
  IsDraining-full c e = elim (Bool-cases (has_batch c)) [
    | inl full ↦ rw full (inl (flushing-flush options.enabled c e full, e))
    | inr few ↦ rw few (inr (ground (arith, few)))
  ]

  IsDraining-push :
      (event : AnalyticsEvent) (c : AnalyticsClient)
      → options.enabled ≡ true
      → IsDraining options.enabled (push options.enabled event c)
  unfolding push
  IsDraining-push event c e = IsDraining-full (record c { pending = c.pending ++ event ∷ [] }) e

  IsDraining-settled :
      (c : AnalyticsClient)
      → c.flushing ≡ true
      → IsDraining options.enabled c
      → IsDraining options.enabled (upload_settled options.enabled c)
  unfolding upload_settled
  IsDraining-settled c f (inl (_, e)) = IsDraining-full (record c { flushing = false }) e
  IsDraining-settled c f (inr n) =
      let few : has_batch c ≡ false = ground (arith, n) in rw few (inr n)

  IsInOrder-settled :
      (events : List AnalyticsEvent) (c : AnalyticsClient)
      → IsInOrder events c
      → IsInOrder events (upload_settled options.enabled c)
  unfolding upload_settled
  IsInOrder-settled events c h = elim (Bool-cases (has_batch c)) [
    | inl full ↦ rw full (IsInOrder-flush options.enabled events (record c { flushing = false }) h)
    | inr few ↦ rw few h
  ]

  -- Whatever is tracked and whenever uploads end, the uploaded batches are the tracked events in
  -- order before those that wait, with one to a hundred events each; and while no upload runs, less
  -- than a hundred events wait.
  pub Run-IsInOrder :
      {events : List AnalyticsEvent} {c : AnalyticsClient}
      → Run texts options events c
      → IsInOrder events c × IsDraining options.enabled c
  Run-IsInOrder start = ((refl, tt), inr (omega arith))
  Run-IsInOrder (tracked {events} {c} run event_name properties trace_id uuid now) =
      let before = Run-IsInOrder run in
      elim (track-cases texts options event_name properties trace_id uuid now c) [
        | inl same ↦ rw (same, append-nil events) before
        | inr (event, on, made, took) ↦
            rw took (IsInOrder-push event events c before.0, IsDraining-push event c on)
      ]
  Run-IsInOrder (flushed {events} {c} run) =
      let before = Run-IsInOrder run in
      (
        IsInOrder-flush options.enabled events c before.0,
        IsDraining-flush options.enabled c before.1,
      )
  Run-IsInOrder (settled {events} {c} run f) =
      let before = Run-IsInOrder run in
      (IsInOrder-settled events c before.0, IsDraining-settled c f before.1)
