-- ===== src/App/Settings/Tests.antt =====
-- Runs of the settings, and their theorems at concrete inputs.
use project_pn.Prelude.{ℕ, ◌≡◌, refl, false, none, some, List, [], ◌∷◌, All}
use project_pn.App.Settings.{Settings}
use project_pn.App.Settings.Requests.{
  SettingsEvent, goal_selected, retention_chosen, answered, accepted, refusal, profile_step, select,
  profile_run,
}
use project_pn.App.Settings.Limits.{IsWithin, profile_run-sent}
use project_pn.App.Settings.Settled.{profile_run-settled}
use project_pn.App.Settings.Crossing.{refused-shows-old}

-- A retention is sent as its percentage.
abbrev opened_settings : Settings ℕ
opened_settings = record {
  review = none;
  streak = none;
  saved_goal_xp = 200;
  selected_goal_xp = 200;
  retention_percent = 90;
  saving_streak = false;
  daily_goal_error = none;
  retention_error = none;
  streak_error = none;
  sent = [];
}

abbrev changes : List (SettingsEvent ℕ)
changes =
    goal_selected (some 300)
    ∷ retention_chosen 120
    ∷ answered 1 (accepted none none)
    ∷ answered 0 refusal
    ∷ []

profile_run-sent_example :
    All
      (IsWithin (λ n. n) (λ n. n) "")
      (profile_run
        (λ n. n)
        (λ n. n)
        ""
        changes
        (record { settings = opened_settings; requests = [] })).settings.sent
profile_run-sent_example =
    profile_run-sent (λ n. n) (λ n. n) "" changes
      (record { settings = opened_settings; requests = [] }) tt

profile_run-settled_example :
    (profile_run
      (λ (n : ℕ). n)
      (λ n. n)
      ""
      changes
      (record { settings = opened_settings; requests = [] })).settings.selected_goal_xp
    ≡ (profile_run
        (λ (n : ℕ). n)
        (λ n. n)
        ""
        changes
        (record { settings = opened_settings; requests = [] })).settings.saved_goal_xp
unfolding profile_step select
profile_run-settled_example =
    profile_run-settled (λ n. n) (λ n. n) "" changes opened_settings refl
      (refl, (tt, (tt, (tt, tt)))) refl

refused-shows-old_example :
    ((profile_run
        (λ (n : ℕ). n)
        (λ n. n)
        ""
        (goal_selected (some 300)
          ∷ goal_selected (some 500)
          ∷ answered 1 (accepted none none)
          ∷ answered 0 refusal
          ∷ [])
        (record { settings = opened_settings; requests = [] })).settings.selected_goal_xp
      ≡ 200)
    × ((profile_run
          (λ (n : ℕ). n)
          (λ n. n)
          ""
          (goal_selected (some 300)
            ∷ goal_selected (some 500)
            ∷ answered 1 (accepted none none)
            ∷ answered 0 refusal
            ∷ [])
          (record { settings = opened_settings; requests = [] })).settings.saved_goal_xp
        ≡ 500)
refused-shows-old_example = refused-shows-old (λ n. n) (λ n. n) "" 300 500 opened_settings refl refl
