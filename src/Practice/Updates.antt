-- ===== src/Practice/Updates.antt =====
-- What the updates of a batch do to a list of due items, and where the list and the overrides of
-- the session agree (applyDueItemUpdatesToList, overridesFromBatchUpdates, resolveDueItem).
use project_pn.Prelude.{
  ℕ, zero, suc, ◌+◌, ◌≤◌, String, ◌≡◌, refl, ap, ◌∙◌, inl, inr, Bool, false, true, not, ◌&&◌,
  Option, none, some, List, [], ◌∷◌, ◌++◌, map, arith, ◌==◌, Option-cases, truthy, filter, any,
  get_elem?, take, drop, contains, get, get_last, contains-set_of, get-put_all,
}
use project_pn.Practice.Item.{
  DueItem, BatchReviewItemUpdate, DueItemPatch, IntervalPreview, keyed, by_id, suspended_ids,
  drop_suspended, update_item, apply_due_item_updates_to_list, override_patch, override_entries,
  overrides_from_batch_updates, resolve_due_item,
}

abbrev pub id_of : DueItem → String
id_of item = item.user_word_sense_id

-- Some update of the batch suspends this id.
abbrev pub is_suspended : List BatchReviewItemUpdate → String → Bool
is_suspended us k = any (λ u. truthy u.suspended && u.user_word_sense_id == k) us

contains-suspended :
    (us : List BatchReviewItemUpdate) (k : String)
    → contains (map (λ u. u.user_word_sense_id) (filter (λ u. truthy u.suspended) us)) k
      ≡ is_suspended us k
contains-suspended [] k = refl
contains-suspended (u ∷ us) k = ground (arith, contains-suspended us k)

contains-suspended_ids :
    (us : List BatchReviewItemUpdate) (k : String)
    → contains (suspended_ids us) k ≡ is_suspended us k
contains-suspended_ids us k = contains-set_of _ k ∙ contains-suspended us k

-- An update keeps the id of an item.
pub id-update_item :
    (m : List (String × BatchReviewItemUpdate)) (item : DueItem)
    → id_of (update_item m item) ≡ id_of item
unfolding update_item
id-update_item m item = ground arith

ids-map-update_item :
    (m : List (String × BatchReviewItemUpdate)) (items : List DueItem)
    → map id_of (map (update_item m) items) ≡ map id_of items
ids-map-update_item m [] = refl
ids-map-update_item m (item ∷ items) = cc (id-update_item m item, ids-map-update_item m items)

-- The ids that stay once the index has passed the preserved slots.
ids-drop_suspended_past :
    (us : List BatchReviewItemUpdate) (n idx : ℕ) (items : List DueItem)
    → n ≤ idx
    → map id_of (drop_suspended (suspended_ids us) n idx items)
      ≡ filter (λ k. not (is_suspended us k)) (map id_of items)
unfolding drop_suspended
ids-drop_suspended_past us n idx [] h = refl
ids-drop_suspended_past us n idx (item ∷ items) h = ground (
  arith,
  contains-suspended_ids us item.user_word_sense_id,
  ids-drop_suspended_past us n (idx + 1) items,
)

ids-drop_suspended :
    (us : List BatchReviewItemUpdate) (m n idx : ℕ) (items : List DueItem)
    → idx + m ≡ n
    → map id_of (drop_suspended (suspended_ids us) n idx items)
      ≡ map id_of (take m items) ++ filter (λ k. not (is_suspended us k)) (map id_of (drop m items))
unfolding drop_suspended
ids-drop_suspended us zero n idx items e = ids-drop_suspended_past us n idx items (omega arith)
ids-drop_suspended us (suc m) n idx [] e = refl
ids-drop_suspended us (suc m) n idx (item ∷ items) e =
    ground (arith, ids-drop_suspended us m n (idx + 1) items)

filter_all : (ks : List String) → filter (λ k. not (is_suspended [] k)) ks ≡ ks
filter_all [] = refl
filter_all (k ∷ ks) = ap (λ r. k ∷ r) (filter_all ks)

ids-take-drop :
    (n : ℕ) (items : List DueItem)
    → map id_of items ≡ map id_of (take n items) ++ map id_of (drop n items)
ids-take-drop zero items = refl
ids-take-drop (suc n) [] = refl
ids-take-drop (suc n) (x ∷ items) = ap (λ r. x.user_word_sense_id ∷ r) (ids-take-drop n items)

-- The ids of the updated list: the first `n` slots keep theirs, in place, and from the later slots
-- exactly the ids that some update suspends are dropped, the others in their order.
pub ids-apply_updates :
    (items : List DueItem) (us : List BatchReviewItemUpdate) (n : ℕ)
    → map id_of (apply_due_item_updates_to_list items us n)
      ≡ map id_of (take n items) ++ filter (λ k. not (is_suspended us k)) (map id_of (drop n items))
unfolding apply_due_item_updates_to_list
ids-apply_updates items [] n = rw filter_all (ids-take-drop n items)
ids-apply_updates items (u ∷ us) n =
    ids-map-update_item (by_id (u ∷ us)) (drop_suspended (suspended_ids (u ∷ us)) n 0 items)
    ∙ ids-drop_suspended (u ∷ us) n n 0 items (omega arith)

-- The last update of the batch for an id.
abbrev pub last_update : List BatchReviewItemUpdate → String → Option BatchReviewItemUpdate
last_update us k = get_last (keyed us) k

get-by_id : (us : List BatchReviewItemUpdate) (k : String) → get (by_id us) k ≡ last_update us k
get-by_id us k = ground (arith, get-put_all [] (keyed us) k)

-- No update of the batch suspends its item.
abbrev pub NoneSuspended : List BatchReviewItemUpdate → Type 0
NoneSuspended [] = Unit
NoneSuspended (u ∷ us) = (truthy u.suspended ≡ false) × NoneSuspended us

abbrev as_override : Option BatchReviewItemUpdate → Option DueItemPatch
as_override none = none
as_override (some u) = some (override_patch u)

last-override_entries :
    (us : List BatchReviewItemUpdate) (k : String)
    → NoneSuspended us
    → get_last (override_entries us) k ≡ as_override (last_update us k)
last-override_entries [] k h = refl
last-override_entries (u ∷ us) k h = rw h.0 (ground (arith, last-override_entries us k h.1))

get-overrides :
    (us : List BatchReviewItemUpdate) (k : String)
    → NoneSuspended us
    → get (overrides_from_batch_updates us) k ≡ as_override (last_update us k)
unfolding overrides_from_batch_updates
get-overrides us k h =
    ground (arith, get-put_all [] (override_entries us) k, last-override_entries us k h)

last_update-unsuspended :
    (us : List BatchReviewItemUpdate) (k : String) {u : BatchReviewItemUpdate}
    → NoneSuspended us
    → last_update us k ≡ some u
    → truthy u.suspended ≡ false
last_update-unsuspended [] k h e = cc
last_update-unsuspended (v ∷ us) k {u} h e =
    ground (arith, last_update-unsuspended us k {u = u} h.1, h.0)

-- What the scheduler decides about an item: its stage, its due time and its previews.
abbrev pub schedule_of : DueItem → String × String × Option IntervalPreview
schedule_of item = (item.learning_stage, item.due_at, item.preview_intervals)

schedule-resolve :
    (us : List BatchReviewItemUpdate) (item : DueItem)
    → NoneSuspended us
    → schedule_of (update_item (by_id us) item)
      ≡ schedule_of (resolve_due_item item (overrides_from_batch_updates us))
unfolding update_item resolve_due_item
schedule-resolve us item h = elim (Option-cases (last_update us (id_of item))) [
  | inl missing ↦ ground (arith, get-by_id us (id_of item), get-overrides us (id_of item) h)
  | inr (u, found) ↦ ground (
    arith,
    get-by_id us (id_of item),
    get-overrides us (id_of item) h,
    last_update-unsuspended us (id_of item) h found,
  )
]

not-is_suspended :
    (us : List BatchReviewItemUpdate) (k : String) → NoneSuspended us → is_suspended us k ≡ false
not-is_suspended [] k h = refl
not-is_suspended (u ∷ us) k h = ground (arith, not-is_suspended us k h.1, h.0)

drop_suspended-none :
    (us : List BatchReviewItemUpdate) (n idx : ℕ) (items : List DueItem)
    → NoneSuspended us
    → drop_suspended (suspended_ids us) n idx items ≡ items
unfolding drop_suspended
drop_suspended-none us n idx [] h = refl
drop_suspended-none us n idx (item ∷ items) h = ground (
  arith,
  contains-suspended_ids us item.user_word_sense_id,
  not-is_suspended us item.user_word_sense_id h,
  drop_suspended-none us n (idx + 1) items h,
)

schedules-resolve :
    (us : List BatchReviewItemUpdate) (items : List DueItem)
    → NoneSuspended us
    → map schedule_of (map (update_item (by_id us)) items)
      ≡ map (λ i. schedule_of (resolve_due_item i (overrides_from_batch_updates us))) items
schedules-resolve us [] h = refl
schedules-resolve us (item ∷ items) h =
    cc (schedule-resolve us item h, schedules-resolve us items h)

resolve-no-updates :
    (items : List DueItem)
    → map schedule_of items
      ≡ map (λ i. schedule_of (resolve_due_item i (overrides_from_batch_updates []))) items
unfolding resolve_due_item overrides_from_batch_updates
resolve-no-updates [] = refl
resolve-no-updates (item ∷ items) = ap (λ r. schedule_of item ∷ r) (resolve-no-updates items)

-- When a batch suspends nothing, the list that it updates and the overrides that it leaves give
-- every item the same stage, due time and previews, whatever slots are preserved.
pub schedule-apply_updates :
    (items : List DueItem) (us : List BatchReviewItemUpdate) (n : ℕ)
    → NoneSuspended us
    → map schedule_of (apply_due_item_updates_to_list items us n)
      ≡ map (λ i. schedule_of (resolve_due_item i (overrides_from_batch_updates us))) items
unfolding apply_due_item_updates_to_list
schedule-apply_updates items [] n h = resolve-no-updates items
schedule-apply_updates items (u ∷ us) n h =
    rw (drop_suspended-none (u ∷ us) n 0 items h) (schedules-resolve (u ∷ us) items h)

get_elem?-updated :
    (m : List (String × BatchReviewItemUpdate)) (items : List DueItem) (i : ℕ) {item : DueItem}
    → get_elem? items i ≡ some item
    → get_elem? (map (update_item m) items) i ≡ some (update_item m item)
get_elem?-updated m [] i h = cc
get_elem?-updated m (item ∷ items) zero h =
    ap (λ o. elim o [ none ↦ none | some x ↦ some (update_item m x) ]) h
get_elem?-updated m (item ∷ items) (suc i) h = get_elem?-updated m items i h

get_elem?-apply_updates :
    (items : List DueItem) (us : List BatchReviewItemUpdate) (n i : ℕ) {item : DueItem}
    {u : BatchReviewItemUpdate}
    → NoneSuspended us
    → last_update us (id_of item) ≡ some u
    → get_elem? items i ≡ some item
    → get_elem? (apply_due_item_updates_to_list items us n) i ≡ some (update_item (by_id us) item)
unfolding apply_due_item_updates_to_list
get_elem?-apply_updates items [] n i h found here = cc
get_elem?-apply_updates items (u ∷ us) n i h found here =
    rw (drop_suspended-none (u ∷ us) n 0 items h) (get_elem?-updated (by_id (u ∷ us)) items i here)

leech-resolve :
    (item : DueItem) (us : List BatchReviewItemUpdate) (u : BatchReviewItemUpdate)
    → NoneSuspended us
    → last_update us (id_of item) ≡ some u
    → truthy u.is_leech ≡ false
    → truthy u.leech ≡ false
    → u.lapse_count ≡ none
    → item.is_leech ≡ some true
    → ((update_item (by_id us) item).is_leech ≡ some true)
      × ((update_item (by_id us) item).lapse_count ≡ item.lapse_count)
      × ((resolve_due_item (update_item (by_id us) item) (overrides_from_batch_updates us)).is_leech
          ≡ some false)
      × ((resolve_due_item
            (update_item (by_id us) item)
            (overrides_from_batch_updates us)).lapse_count
          ≡ none)
unfolding update_item resolve_due_item
leech-resolve item us u h found a b c d = ground (
  arith,
  get-by_id us (id_of item),
  get-overrides us (id_of item) h,
  last_update-unsuspended us (id_of item) h found,
)

-- When a batch suspends nothing and its last update for an item of the list has no leech mark and
-- no lapse count, the updated list still holds that item's leech mark and count at the same index,
-- and resolving the updated item by the overrides of the batch clears both.
pub resolve-clears-leech :
    (items : List DueItem) (us : List BatchReviewItemUpdate) (n i : ℕ) (item : DueItem)
    (u : BatchReviewItemUpdate)
    → NoneSuspended us
    → get_elem? items i ≡ some item
    → last_update us (id_of item) ≡ some u
    → truthy u.is_leech ≡ false
    → truthy u.leech ≡ false
    → u.lapse_count ≡ none
    → item.is_leech ≡ some true
    → (updated : DueItem) × (get_elem? (apply_due_item_updates_to_list items us n) i ≡ some updated)
      × (updated.is_leech ≡ some true)
      × (updated.lapse_count ≡ item.lapse_count)
      × ((resolve_due_item updated (overrides_from_batch_updates us)).is_leech ≡ some false)
      × ((resolve_due_item updated (overrides_from_batch_updates us)).lapse_count ≡ none)
resolve-clears-leech items us n i item u h here found a b c d =
    let resolved = leech-resolve item us u h found a b c d in
    (
      update_item (by_id us) item,
      get_elem?-apply_updates items us n i h found here,
      resolved.0,
      resolved.1,
      resolved.2,
      resolved.3,
    )
