-- ===== src/Add/Capture/Adding.antt =====
-- Adding the selected spans to the queue: addSelected of
-- frontend/src/features/add/CaptureSection.tsx with frontend/src/hooks/useAddQueue.tsx.
use project_pn.Prelude.{
  ℕ, ◌≡◌, ◌⊎◌, inl, inr, refl, sym, subst, append-nil, String, Bool, true, false, Option, List, [],
  ◌∷◌, ◌==◌, map, any, arith, All, All-implies, Bool-cases, List-cases, eq_refl,
}
use project_pn.Add.Passage.{PassageSpan}
use project_pn.Add.Queue.{AddQueue, all_jobs, render, status_of, trimmed_texts}
use project_pn.Add.Capture.{Capture, is_addable, addable_spans, add_selected}
use project_pn.Add.Capture.Statuses.{enqueue_many-status}

module _ (trim : String → String) where
  -- A selected span is pending or added, or among the words that are added.
  abbrev IsCovered : AddQueue → List String → PassageSpan → Type 0
  IsCovered q words s =
      (is_addable (status_of trim s.text q) ≡ false)
      ⊎ (any (λ text. text == trim s.text) words ≡ true)

  still-IsCovered :
      (q : AddQueue) (word : String) (words : List String) (s : PassageSpan)
      → IsCovered q words s
      → IsCovered q (word ∷ words) s
  still-IsCovered q word words s (inl h) = inl h
  still-IsCovered q word words s (inr h) = inr (ground arith)

  abbrev new_words : (String → ℕ) → AddQueue → List PassageSpan → List String
  new_words words_in q selected =
      trimmed_texts trim (map (λ s. s.text) (addable_spans trim words_in q selected))

  new_words-addable :
      (words_in : String → ℕ) (q : AddQueue) (s : PassageSpan) (rest : List PassageSpan)
      → is_addable (status_of trim s.text q) ≡ true
      → (trim s.text == "") ≡ false
      → new_words words_in q (s ∷ rest) ≡ trim s.text ∷ new_words words_in q rest
  new_words-addable words_in q s rest addable written = rw (addable, written) refl

  new_words-known :
      (words_in : String → ℕ) (q : AddQueue) (s : PassageSpan) (rest : List PassageSpan)
      → is_addable (status_of trim s.text q) ≡ false
      → new_words words_in q (s ∷ rest) ≡ new_words words_in q rest
  new_words-known words_in q s rest known = rw known refl

  selected-IsCovered :
      (words_in : String → ℕ) (q : AddQueue) (selected : List PassageSpan)
      → All (λ s. (trim s.text == "") ≡ false) selected
      → All (IsCovered q (new_words words_in q selected)) selected
  selected-IsCovered words_in q [] h = tt
  selected-IsCovered words_in q (s ∷ rest) (written, h) =
      let others = selected-IsCovered words_in q rest h in
      elim (Bool-cases (is_addable (status_of trim s.text q))) [
        | inl addable ↦
            subst (λ words. All (IsCovered q words) (s ∷ rest))
              (sym (new_words-addable words_in q s rest addable written))
              (
                inr (rw (eq_refl (trim s.text)) refl),
                All-implies _ _ (still-IsCovered q (trim s.text) (new_words words_in q rest)) rest
                    others,
              )
        | inr known ↦
            subst (λ words. All (IsCovered q words) (s ∷ rest))
              (sym (new_words-known words_in q s rest known)) (inl known, others)
      ]

  none-addable :
      (words_in : String → ℕ) (q : AddQueue) (selected : List PassageSpan)
      → All (λ s. is_addable (status_of trim s.text q) ≡ false) selected
      → addable_spans trim words_in q selected ≡ []
  none-addable words_in q [] h = refl
  none-addable words_in q (s ∷ rest) (known, h) = rw known (none-addable words_in q rest h)

  covered-none :
      (q : AddQueue) (spans : List PassageSpan) (s : PassageSpan)
      → spans ≡ []
      → IsCovered q (trimmed_texts trim (map (λ t. t.text) spans)) s
      → is_addable (status_of trim s.text q) ≡ false
  covered-none q spans s nothing (inl h) = h
  covered-none q [] s nothing (inr h) = cc
  covered-none q (t ∷ spans) s nothing (inr h) = absurd (cc nothing)

  covered-known :
      (words_in : String → ℕ) (next_id : ℕ → String) (deck_id language_code : Option String)
      (c : Capture) (q : AddQueue) (defers : Bool) (s : PassageSpan)
      → IsCovered (render false q) (new_words words_in (render false q) c.selected) s
      → is_addable (
          status_of trim s.text (
            render defers
              (add_selected trim words_in next_id deck_id language_code c (render false q))))
        ≡ false
  unfolding add_selected status_of render
  covered-known words_in next_id deck_id language_code c q defers s covered =
      let spans_of = addable_spans trim words_in (render false q) c.selected in
      elim (List-cases spans_of) [
        | inl nothing ↦
            rw (add_selected, nothing, append-nil (all_jobs q))
              (covered-none (render false q) spans_of s nothing covered)
        | inr (span, spans, e) ↦
            rw (add_selected, e)
              (enqueue_many-status (trim s.text) trim next_id (map (λ t. t.text) (span ∷ spans)) _
                deck_id language_code q
                (subst
                  (λ ts. IsCovered (render false q) (trimmed_texts trim (map (λ t. t.text) ts)) s) e
                  covered))
      ]

  nothing-added :
      (words_in : String → ℕ) (next_id : ℕ → String) (deck_id language_code : Option String)
      (c : Capture) (q : AddQueue)
      → addable_spans trim words_in q c.selected ≡ []
      → add_selected trim words_in next_id deck_id language_code c q ≡ q
  unfolding add_selected
  nothing-added words_in next_id deck_id language_code c q nothing = rw (add_selected, nothing) refl

  -- Where no selected text is blank and the provider is rendered with no update left pending,
  -- adding the selection makes each selected text pending or leaves it pending or added, as the
  -- next render shows; and adding it once more then, with any identifiers, changes nothing.
  pub add_selected-once :
      (words_in : String → ℕ) (next_id other_id : ℕ → String)
      (deck_id language_code : Option String) (c : Capture) (q : AddQueue) (defers : Bool)
      → All (λ s. (trim s.text == "") ≡ false) c.selected
      → let again =
          render defers
            (add_selected trim words_in next_id deck_id language_code c (render false q)) in
        All (λ s. is_addable (status_of trim s.text again) ≡ false) c.selected
        × (add_selected trim words_in other_id deck_id language_code c again ≡ again)
  add_selected-once words_in next_id other_id deck_id language_code c q defers written =
      let again =
        render defers
          (add_selected trim words_in next_id deck_id language_code c (render false q)) in
      let known =
        All-implies _ (λ s. is_addable (status_of trim s.text again) ≡ false)
          (covered-known words_in next_id deck_id language_code c q defers) c.selected
          (selected-IsCovered words_in (render false q) c.selected written) in
      (
        known,
        nothing-added words_in other_id deck_id language_code c again
            (none-addable words_in again c.selected known),
      )
