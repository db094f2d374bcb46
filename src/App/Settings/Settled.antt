-- ===== src/App/Settings/Settled.antt =====
-- The daily goal while its requests do not overlap: handleSelectDailyGoal of
-- frontend/src/features/profile/ProfileScreen.tsx.
use project_pn.Prelude.{
  ℕ, ◌≡◌, inl, inr, refl, sym, subst, String, Bool, true, false, Option, none, some, List, [], ◌∷◌,
  ◌++◌, get_elem?, count_p, count_p-append, eqb, if◌then◌else◌, arith, All-append, Bool-cases,
  Option-cases,
}
use project_pn.App.Settings.{
  Settings, settings_loaded, select_goal, goal_saved, goal_failed, commit_retention_percent,
  retention_saved, retention_failed, toggle_vacation, vacation_saved, vacation_failed,
  use_streak_freeze, freeze_saved,
}
use project_pn.App.Settings.Requests.{
  Request, goal_request, retention_request, vacation_request, freeze_request, Answer, accepted,
  refusal, SettingsEvent, settings_read, settings_unread, freeze_pressed, goal_selected,
  retention_chosen, vacation_switched, answered, ProfileState, remove_at, answer_to, select,
  press_freeze, profile_step, profile_run,
}
use project_pn.App.Settings.Goals.{
  is_goal, IsCaptured, IsSettled, none-IsCaptured, sent-IsSettled, other-IsSettled, goal-answered,
  calm-settled,
}

module _ {Decimal : Type 0} (decimal_of : ℕ → Decimal) (percent_of : Decimal → ℕ)
    (in_a_week : String) where
  abbrev Settles : ProfileState Decimal → Type 0
  Settles p = IsSettled p.settings.selected_goal_xp p.settings.saved_goal_xp p.requests

  answer-IsSettled :
      (request : Request Decimal) (place : ℕ) (answer : Answer Decimal) (p : ProfileState Decimal)
      → get_elem? p.requests place ≡ some request
      → Settles p
      → Settles (record {
        settings = answer_to decimal_of percent_of in_a_week request answer p.settings;
        requests = remove_at place p.requests;
      })
  unfolding answer_to goal_saved goal_failed retention_saved retention_failed vacation_saved
      vacation_failed freeze_saved
  answer-IsSettled (goal_request next prev_goal) place (accepted review streak) p e h =
      inl ((goal-answered next prev_goal place _ _ p.requests e h).0, refl)
  answer-IsSettled (goal_request next prev_goal) place refusal p e h =
      inl (goal-answered next prev_goal place _ _ p.requests e h)
  answer-IsSettled (retention_request decimal prev_percent) place (accepted review streak) p e h =
      other-IsSettled _ place _ _ p.requests e refl h
  answer-IsSettled (retention_request decimal prev_percent) place refusal p e h =
      other-IsSettled _ place _ _ p.requests e refl h
  answer-IsSettled (vacation_request next_active prev_streak) place (accepted review streak) p e h =
      other-IsSettled _ place _ _ p.requests e refl h
  answer-IsSettled (vacation_request next_active prev_streak) place refusal p e h =
      other-IsSettled _ place _ _ p.requests e refl h
  answer-IsSettled freeze_request place (accepted review streak) p e h =
      other-IsSettled _ place _ _ p.requests e refl h
  answer-IsSettled freeze_request place refusal p e h =
      other-IsSettled _ place _ _ p.requests e refl h

  select-IsSettled :
      (next : Option ℕ) (p : ProfileState Decimal)
      → count_p is_goal p.requests ≡ 0
      → Settles p
      → Settles (select decimal_of percent_of in_a_week next p)
  unfolding select select_goal
  select-IsSettled none p calm h = h
  select-IsSettled (some next) p calm h = elim (Bool-cases (eqb next p.settings.selected_goal_xp)) [
    | inl same ↦ rw (select, same) h
    | inr other ↦
        rw (select, other)
          (inr (
            ground (
              arith,
              calm,
              count_p-append is_goal p.requests
                  (goal_request next p.settings.selected_goal_xp ∷ []),
            ),
            All-append (IsCaptured p.settings.saved_goal_xp) p.requests
                (goal_request next p.settings.selected_goal_xp ∷ [])
                (none-IsCaptured p.settings.saved_goal_xp p.requests calm)
                (calm-settled _ _ p.requests calm h, tt),
          ))
  ]

  use_streak_freeze-goal :
      (s : Settings Decimal)
      → ((use_streak_freeze decimal_of percent_of in_a_week s).0.selected_goal_xp
          ≡ s.selected_goal_xp)
        × ((use_streak_freeze decimal_of percent_of in_a_week s).0.saved_goal_xp ≡ s.saved_goal_xp)
  unfolding use_streak_freeze
  use_streak_freeze-goal s = elim (Option-cases s.streak) [
    | inl unread ↦ rw (use_streak_freeze, unread) (refl, refl)
    | inr (streak, e) ↦ elim (Bool-cases (eqb streak.streak_freeze_tokens 0)) [
      | inl none_left ↦ rw (use_streak_freeze, e, none_left) (refl, refl)
      | inr some_left ↦ rw (use_streak_freeze, e, some_left) (refl, refl)
    ]
  ]

  if-IsSettled :
      (sends : Bool) (p : ProfileState Decimal)
      → Settles p
      → IsSettled p.settings.selected_goal_xp p.settings.saved_goal_xp
          (if sends then p.requests ++ freeze_request ∷ [] else p.requests)
  if-IsSettled true p h = sent-IsSettled freeze_request _ _ p.requests refl tt h
  if-IsSettled false p h = h

  pressed-IsSettled :
      (used : Settings Decimal × Bool) (p : ProfileState Decimal)
      → used.0.selected_goal_xp ≡ p.settings.selected_goal_xp
      → used.0.saved_goal_xp ≡ p.settings.saved_goal_xp
      → Settles p
      → IsSettled used.0.selected_goal_xp used.0.saved_goal_xp
          (if used.1 then p.requests ++ freeze_request ∷ [] else p.requests)
  pressed-IsSettled (s, sends) p e f h =
      subst
        (λ n.
          IsSettled n s.saved_goal_xp
            (if sends then p.requests ++ freeze_request ∷ [] else p.requests))
        (sym e)
        (subst
          (λ n.
            IsSettled p.settings.selected_goal_xp n
              (if sends then p.requests ++ freeze_request ∷ [] else p.requests))
          (sym f) (if-IsSettled sends p h))

  press_freeze-IsSettled :
      (p : ProfileState Decimal)
      → Settles p
      → Settles (press_freeze decimal_of percent_of in_a_week p)
  unfolding press_freeze use_streak_freeze
  press_freeze-IsSettled p h = elim (Bool-cases p.settings.saving_streak) [
    | inl saving ↦ rw (press_freeze, saving) h
    | inr ready ↦
        let s = record p.settings { saving_streak = false } in
        rw (press_freeze, ready)
          (pressed-IsSettled (use_streak_freeze decimal_of percent_of in_a_week s) p
            (use_streak_freeze-goal s).0 (use_streak_freeze-goal s).1 h)
  ]

  -- A goal is selected, and the settings are read, only while no goal is sent.
  abbrev pub IsCalm : SettingsEvent Decimal → ProfileState Decimal → Type 0
  IsCalm (settings_read review streak) p = count_p is_goal p.requests ≡ 0
  IsCalm (goal_selected next) p = count_p is_goal p.requests ≡ 0
  IsCalm settings_unread p = Unit
  IsCalm freeze_pressed p = Unit
  IsCalm (retention_chosen rounded) p = Unit
  IsCalm (vacation_switched next_active) p = Unit
  IsCalm (answered place answer) p = Unit

  step-IsSettled :
      (event : SettingsEvent Decimal) (p : ProfileState Decimal)
      → IsCalm event p
      → Settles p
      → Settles (profile_step decimal_of percent_of in_a_week event p)
  unfolding profile_step settings_loaded commit_retention_percent toggle_vacation
  step-IsSettled (settings_read review streak) p calm h = inl (calm, refl)
  step-IsSettled settings_unread p calm h = h
  step-IsSettled (goal_selected next) p calm h = select-IsSettled next p calm h
  step-IsSettled (retention_chosen rounded) p calm h = sent-IsSettled _ _ _ p.requests refl tt h
  step-IsSettled (vacation_switched next_active) p calm h =
      elim (Bool-cases p.settings.saving_streak) [
        | inl saving ↦ rw saving h
        | inr ready ↦ rw ready (sent-IsSettled _ _ _ p.requests refl tt h)
      ]
  step-IsSettled freeze_pressed p calm h = press_freeze-IsSettled p h
  step-IsSettled (answered place answer) p calm h =
      elim (Option-cases (get_elem? p.requests place)) [
        | inl nothing ↦ rw (profile_step, nothing) h
        | inr (request, e) ↦ rw (profile_step, e) (answer-IsSettled request place answer p e h)
      ]

  -- Each event of a run comes in a calm state.
  abbrev pub AllCalm : List (SettingsEvent Decimal) → ProfileState Decimal → Type 0
  AllCalm [] p = Unit
  AllCalm (event ∷ events) p =
      IsCalm event p × AllCalm events (profile_step decimal_of percent_of in_a_week event p)

  run-IsSettled :
      (events : List (SettingsEvent Decimal)) (p : ProfileState Decimal)
      → AllCalm events p
      → Settles p
      → Settles (profile_run decimal_of percent_of in_a_week events p)
  run-IsSettled [] p calm h = h
  run-IsSettled (event ∷ events) p (calm, rest) h =
      run-IsSettled events (profile_step decimal_of percent_of in_a_week event p) rest
        (step-IsSettled event p calm h)

  -- Where no goal is selected and no settings are read while a request for a goal runs: from a state
  -- with no request whose selected goal is the saved one, whatever else crosses and whichever requests
  -- fail, the selected goal is the saved one whenever no request for a goal runs.
  pub profile_run-settled :
      (events : List (SettingsEvent Decimal)) (s : Settings Decimal)
      → s.selected_goal_xp ≡ s.saved_goal_xp
      → AllCalm events (record { settings = s; requests = [] })
      → count_p is_goal
          (profile_run decimal_of percent_of in_a_week events
            (record { settings = s; requests = [] })).requests
        ≡ 0
      → (profile_run decimal_of percent_of in_a_week events
          (record { settings = s; requests = [] })).settings.selected_goal_xp
        ≡ (profile_run decimal_of percent_of in_a_week events
            (record { settings = s; requests = [] })).settings.saved_goal_xp
  profile_run-settled events s same calm none_waits =
      calm-settled _ _ _ none_waits
        (run-IsSettled events (record { settings = s; requests = [] }) calm (inl (refl, same)))
