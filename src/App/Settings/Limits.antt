-- ===== src/App/Settings/Limits.antt =====
-- The retentions that are sent: frontend/src/features/profile/ProfileScreen.tsx.
use project_pn.Prelude.{
  ℕ, ◌≡◌, ◌≤◌, inl, inr, refl, sym, subst, min, max, String, false, Option, none, some, List, [],
  ◌∷◌, get_elem?, eqb, arith, All, Bool-cases, Option-cases,
}
use project_pn.App.Settings.{
  Settings, select_goal, goal_saved, goal_failed, commit_retention_percent, retention_saved,
  retention_failed, toggle_vacation, vacation_saved, vacation_failed, use_streak_freeze,
  freeze_saved, settings_loaded,
}
use project_pn.App.Settings.Requests.{
  Request, goal_request, retention_request, vacation_request, freeze_request, Answer, accepted,
  refusal, SettingsEvent, settings_read, settings_unread, freeze_pressed, goal_selected,
  retention_chosen, vacation_switched, answered, ProfileState, answer_to, select, press_freeze,
  profile_step, profile_run,
}

module _ {Decimal : Type 0} (decimal_of : ℕ → Decimal) (percent_of : Decimal → ℕ)
    (in_a_week : String) where
  -- A retention from 70 to 97 per cent.
  abbrev pub IsWithin : Decimal → Type 0
  IsWithin d = (n : ℕ) × (70 ≤ n) × (n ≤ 97) × (d ≡ decimal_of n)

  answer_to-sent :
      (request : Request Decimal) (answer : Answer Decimal) (s : Settings Decimal)
      → (answer_to decimal_of percent_of in_a_week request answer s).sent ≡ s.sent
  unfolding answer_to goal_saved goal_failed retention_saved retention_failed vacation_saved
      vacation_failed freeze_saved
  answer_to-sent (goal_request next prev_goal) (accepted review streak) s = refl
  answer_to-sent (goal_request next prev_goal) refusal s = refl
  answer_to-sent (retention_request decimal prev_percent) (accepted review streak) s = refl
  answer_to-sent (retention_request decimal prev_percent) refusal s = refl
  answer_to-sent (vacation_request next_active prev_streak) (accepted review streak) s = refl
  answer_to-sent (vacation_request next_active prev_streak) refusal s = refl
  answer_to-sent freeze_request (accepted review streak) s = refl
  answer_to-sent freeze_request refusal s = refl

  select-sent :
      (next : Option ℕ) (p : ProfileState Decimal)
      → (select decimal_of percent_of in_a_week next p).settings.sent ≡ p.settings.sent
  unfolding select select_goal
  select-sent none p = refl
  select-sent (some next) p = elim (Bool-cases (eqb next p.settings.selected_goal_xp)) [
    | inl same ↦ rw (select, same) refl
    | inr other ↦ rw (select, other) refl
  ]

  use_streak_freeze-sent :
      (s : Settings Decimal) → (use_streak_freeze decimal_of percent_of in_a_week s).0.sent ≡ s.sent
  unfolding use_streak_freeze
  use_streak_freeze-sent s = elim (Option-cases s.streak) [
    | inl unread ↦ rw (use_streak_freeze, unread) refl
    | inr (streak, e) ↦ elim (Bool-cases (eqb streak.streak_freeze_tokens 0)) [
      | inl none_left ↦ rw (use_streak_freeze, e, none_left) refl
      | inr some_left ↦ rw (use_streak_freeze, e, some_left) refl
    ]
  ]

  press_freeze-sent :
      (p : ProfileState Decimal)
      → (press_freeze decimal_of percent_of in_a_week p).settings.sent ≡ p.settings.sent
  unfolding press_freeze use_streak_freeze
  press_freeze-sent p = elim (Bool-cases p.settings.saving_streak) [
    | inl saving ↦ rw (press_freeze, saving) refl
    | inr ready ↦
        rw (press_freeze, ready)
          (use_streak_freeze-sent (record p.settings { saving_streak = false }))
  ]

  step-sent :
      (event : SettingsEvent Decimal) (p : ProfileState Decimal)
      → All IsWithin p.settings.sent
      → All IsWithin (profile_step decimal_of percent_of in_a_week event p).settings.sent
  unfolding profile_step settings_loaded commit_retention_percent toggle_vacation
  step-sent (settings_read review streak) p h = h
  step-sent settings_unread p h = h
  step-sent (goal_selected next) p h = subst (All IsWithin) (sym (select-sent next p)) h
  step-sent (retention_chosen rounded) p h =
      ((max 70 (min 97 rounded), omega arith, omega arith, refl), h)
  step-sent (vacation_switched next_active) p h = elim (Bool-cases p.settings.saving_streak) [
    | inl saving ↦ rw saving h
    | inr ready ↦ rw ready h
  ]
  step-sent freeze_pressed p h = subst (All IsWithin) (sym (press_freeze-sent p)) h
  step-sent (answered place answer) p h = elim (Option-cases (get_elem? p.requests place)) [
    | inl nothing ↦ rw (profile_step, nothing) h
    | inr (request, e) ↦
        rw (profile_step, e)
          (subst (All IsWithin) (sym (answer_to-sent request answer p.settings)) h)
  ]

  -- Whatever retentions are asked for and however answers cross, each retention that is sent is one of
  -- 70 to 97 per cent.
  pub profile_run-sent :
      (events : List (SettingsEvent Decimal)) (p : ProfileState Decimal)
      → All IsWithin p.settings.sent
      → All IsWithin (profile_run decimal_of percent_of in_a_week events p).settings.sent
  profile_run-sent [] p h = h
  profile_run-sent (event ∷ events) p h =
      profile_run-sent events (profile_step decimal_of percent_of in_a_week event p)
        (step-sent event p h)
