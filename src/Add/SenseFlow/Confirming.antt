-- ===== src/Add/SenseFlow/Confirming.antt =====
-- The additions of the sheet: frontend/src/hooks/useSenseFlow.ts.
use project_pn.Prelude.{
  ◌≡◌, refl, String, Bool, true, false, ◌==◌, inl, inr, List, [], ◌∷◌, ◌++◌, arith, if◌then◌else◌,
  Bool-cases, length, length-append,
}
use project_pn.Api.Client.{Error}
use project_pn.Add.Senses.{SenseOption}
use project_pn.Add.SenseFlow.{
  LookupKind, first_lookup, force_existing, force_with_pos, SenseAddition, SenseNotice, on_added,
  on_dismiss, SenseFlow, closed_flow, lookup, force_lookup, force_existing_lookup,
  force_lookup_with_pos, confirm, senses_shown, senses_found, lookup_failed, confirm_failed,
  confirmed, close, Step, looked_up, forced, forced_pos, found, not_found, confirm_asked, added,
  not_added, closed, Steps, start, then_,
}

abbrev is_added : SenseNotice → Bool
is_added (on_added id) = true
is_added on_dismiss = false

-- One addition runs just while the sheet shows that it is confirming.
abbrev pub IsSingle : SenseFlow → Type 0
IsSingle s =
    (s.confirming ≡ s.confirming_ref) × (length s.additions ≡ (if s.confirming_ref then 1 else 0))

flags-senses_found :
    (t : String → String) (k : LookupKind) (os : List SenseOption) (s : SenseFlow)
    → ((senses_found t k os s).confirming ≡ s.confirming)
      × ((senses_found t k os s).confirming_ref ≡ s.confirming_ref)
      × ((senses_found t k os s).additions ≡ s.additions)
unfolding senses_found senses_shown
flags-senses_found t first_lookup [] s = (refl, refl, refl)
flags-senses_found t first_lookup (o ∷ os) s = (refl, refl, refl)
flags-senses_found t force_existing os s = (refl, refl, refl)
flags-senses_found t force_with_pos os s = (refl, refl, refl)

flags-lookup_failed :
    (t : String → String) (k : LookupKind) (err : Error) (s : SenseFlow)
    → ((lookup_failed t k err s).confirming ≡ s.confirming)
      × ((lookup_failed t k err s).confirming_ref ≡ s.confirming_ref)
      × ((lookup_failed t k err s).additions ≡ s.additions)
unfolding lookup_failed
flags-lookup_failed t first_lookup err s = (refl, refl, refl)
flags-lookup_failed t force_existing err s = (refl, refl, refl)
flags-lookup_failed t force_with_pos err s = (refl, refl, refl)

-- An answer finds the sheet confirming, and its addition is the only one.
last_addition :
    (s : SenseFlow) (before after : List SenseAddition) (r : SenseAddition)
    → IsSingle s
    → s.additions ≡ before ++ r ∷ after
    → length (before ++ after) ≡ 0
last_addition s before after r h e =
    ground (arith, rw e at h.1, length-append before (r ∷ after), length-append before after)

IsSingle-Step :
    {t trim : String → String} {s u : SenseFlow} → Step t trim s u → IsSingle s → IsSingle u
unfolding lookup force_lookup force_existing_lookup force_lookup_with_pos confirm confirmed
    confirm_failed close
IsSingle-Step {t} {trim} (looked_up s text pos context language deck) h =
    elim (Bool-cases (trim text == "")) [ inl blank ↦ rw blank h | inr some_text ↦ rw some_text h ]
IsSingle-Step (forced s word_id context) h = h
IsSingle-Step (forced_pos s pos context) h = h
IsSingle-Step {t} (found s before after r os e) h =
    let f = flags-senses_found t r.kind os (record s { lookups = before ++ after }) in
    rw (f.0, f.1, f.2) h
IsSingle-Step {t} (not_found s before after r err e) h =
    let f = flags-lookup_failed t r.kind err (record s { lookups = before ++ after }) in
    rw (f.0, f.1, f.2) h
IsSingle-Step {t} {trim} (confirm_asked s id deck context remark) h =
    elim (Bool-cases s.confirming_ref) [
      | inl busy ↦ rw busy (rw busy at h)
      | inr free ↦ rw free (refl, omega (arith, rw free at h.1, length-append s.additions (_ ∷ [])))
    ]
IsSingle-Step (added s before after r e) h = (refl, last_addition s before after r h e)
IsSingle-Step (not_added s before after r err e) h = (refl, last_addition s before after r h e)
IsSingle-Step (closed s) h = elim (Bool-cases s.confirming_ref) [
  | inl busy ↦ rw busy (rw busy at h)
  | inr free ↦ rw free (rw free at h)
]

-- In every state that can be reached, the sheet shows that it is confirming exactly while one
-- addition runs, however lookups, confirmations and answers come: there are never two.
pub Steps-IsSingle :
    {t trim : String → String} {s : SenseFlow} → Steps t trim closed_flow s → IsSingle s
Steps-IsSingle start = (refl, refl)
Steps-IsSingle (then_ steps step) = IsSingle-Step step (Steps-IsSingle steps)
