-- ===== src/App/Settings/Crossing.antt =====
-- Two goals whose requests cross: handleSelectDailyGoal of
-- frontend/src/features/profile/ProfileScreen.tsx.
use project_pn.Prelude.{ℕ, ◌≡◌, refl, String, false, none, some, [], ◌∷◌, eqb}
use project_pn.App.Settings.{Settings, select_goal, goal_saved, goal_failed}
use project_pn.App.Settings.Requests.{
  goal_request, accepted, refusal, goal_selected, answered, answer_to, select, profile_step,
  profile_run,
}

module _ {Decimal : Type 0} (decimal_of : ℕ → Decimal) (percent_of : Decimal → ℕ)
    (in_a_week : String) where
  two_selected :
      (first second : ℕ) (s : Settings Decimal)
      → eqb first s.selected_goal_xp ≡ false
      → eqb second first ≡ false
      → profile_run decimal_of percent_of in_a_week
          (goal_selected (some first) ∷ goal_selected (some second) ∷ [])
          (record { settings = s; requests = [] })
        ≡ record {
          settings = record s { selected_goal_xp = second; daily_goal_error = none };
          requests = goal_request first s.selected_goal_xp ∷ goal_request second first ∷ [];
        }
  unfolding profile_step select select_goal
  two_selected first second s changed again = rw (changed, again) refl

  -- Two goals are selected one after the other, each another than the one shown; the second is saved
  -- and then the first refused: the screen shows the goal from before both, and the saved one is the
  -- second.
  pub refused-shows-old :
      (first second : ℕ) (s : Settings Decimal)
      → eqb first s.selected_goal_xp ≡ false
      → eqb second first ≡ false
      → ((profile_run decimal_of percent_of in_a_week
            (goal_selected (some first)
              ∷ goal_selected (some second)
              ∷ answered 1 (accepted none none)
              ∷ answered 0 refusal
              ∷ [])
            (record { settings = s; requests = [] })).settings.selected_goal_xp
          ≡ s.selected_goal_xp)
        × ((profile_run decimal_of percent_of in_a_week
              (goal_selected (some first)
                ∷ goal_selected (some second)
                ∷ answered 1 (accepted none none)
                ∷ answered 0 refusal
                ∷ [])
              (record { settings = s; requests = [] })).settings.saved_goal_xp
            ≡ second)
  unfolding profile_step answer_to goal_saved goal_failed
  refused-shows-old first second s changed again =
      rw (two_selected first second s changed again) (refl, refl)
