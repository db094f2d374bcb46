-- ===== src/App/Settings/Requests.antt =====
-- The requests of the settings and their answers, in any order:
-- frontend/src/features/profile/ProfileScreen.tsx.
-- While a request about the streak runs, its switch and its button are disabled. `accepted` has the body
-- of an answer, read as review settings and as streak settings.
use project_pn.Prelude.{
  ℕ, zero, suc, String, Bool, Option, none, some, List, [], ◌∷◌, ◌++◌, get_elem?, if◌then◌else◌,
}
use project_pn.App.Settings.{
  ReviewSettings, StreakSettings, Settings, settings_loaded, settings_failed, select_goal,
  goal_saved, goal_failed, clamped, commit_retention_percent, retention_saved, retention_failed,
  toggle_vacation, vacation_saved, vacation_failed, use_streak_freeze, freeze_saved, freeze_failed,
}

-- A request, with what its handler captured.
pub data Request (Decimal : Type 0) : Type 0 where
  goal_request : (next prev_goal : ℕ) → Request Decimal
  retention_request : (decimal : Decimal) → (prev_percent : ℕ) → Request Decimal
  vacation_request : (next_active : Bool) → (prev_streak : Option StreakSettings) → Request Decimal
  freeze_request : Request Decimal

pub data Answer (Decimal : Type 0) : Type 0 where
  accepted :
      (review : Option (ReviewSettings Decimal)) → (streak : Option StreakSettings) → Answer Decimal
  refusal : Answer Decimal

pub data SettingsEvent (Decimal : Type 0) : Type 0 where
  settings_read : ReviewSettings Decimal → StreakSettings → SettingsEvent Decimal
  settings_unread freeze_pressed : SettingsEvent Decimal
  goal_selected : Option ℕ → SettingsEvent Decimal
  retention_chosen : (rounded : ℕ) → SettingsEvent Decimal
  vacation_switched : Bool → SettingsEvent Decimal
  answered : (place : ℕ) → Answer Decimal → SettingsEvent Decimal

pub record ProfileState (Decimal : Type 0) : Type 0 where
  pub settings : Settings Decimal
  pub requests : List (Request Decimal)

abbrev pub remove_at {ℓ} : {A : Type ℓ} → ℕ → List A → List A
remove_at place [] = []
remove_at zero (x ∷ xs) = xs
remove_at (suc place) (x ∷ xs) = x ∷ remove_at place xs

module _ {Decimal : Type 0} (decimal_of : ℕ → Decimal) (percent_of : Decimal → ℕ)
    (in_a_week : String) where
  unfoldable pub answer_to : Request Decimal → Answer Decimal → Settings Decimal → Settings Decimal
  unfolding goal_saved goal_failed retention_saved retention_failed vacation_saved vacation_failed
      freeze_saved
  answer_to (goal_request next prev_goal) (accepted updated streak) s =
      goal_saved decimal_of percent_of in_a_week next updated s
  answer_to (goal_request next prev_goal) refusal s =
      goal_failed decimal_of percent_of in_a_week prev_goal s
  answer_to (retention_request decimal prev_percent) (accepted updated streak) s =
      retention_saved decimal_of percent_of in_a_week decimal updated s
  answer_to (retention_request decimal prev_percent) refusal s =
      retention_failed decimal_of percent_of in_a_week prev_percent s
  answer_to (vacation_request next_active prev_streak) (accepted review updated) s =
      vacation_saved decimal_of percent_of in_a_week next_active updated prev_streak s
  answer_to (vacation_request next_active prev_streak) refusal s =
      vacation_failed decimal_of percent_of in_a_week prev_streak s
  answer_to freeze_request (accepted review updated) s =
      freeze_saved decimal_of percent_of in_a_week updated s
  answer_to freeze_request refusal s = freeze_failed decimal_of percent_of in_a_week s

  unfoldable pub select : Option ℕ → ProfileState Decimal → ProfileState Decimal
  unfolding select_goal
  select none p = p
  select (some next) p =
      let chosen = select_goal decimal_of percent_of in_a_week (some next) p.settings in
      record {
        settings = chosen.0;
        requests =
            if chosen.1
            then p.requests ++ goal_request next p.settings.selected_goal_xp ∷ []
            else p.requests;
      }

  unfoldable pub press_freeze : ProfileState Decimal → ProfileState Decimal
  unfolding use_streak_freeze
  press_freeze p =
      if p.settings.saving_streak
      then p
      else let used = use_streak_freeze decimal_of percent_of in_a_week p.settings in
        record {
          settings = used.0;
          requests = if used.1 then p.requests ++ freeze_request ∷ [] else p.requests;
        }

  unfoldable pub profile_step : SettingsEvent Decimal → ProfileState Decimal → ProfileState Decimal
  unfolding settings_loaded select commit_retention_percent toggle_vacation press_freeze answer_to
  profile_step (settings_read review streak) p = record p {
    settings = settings_loaded decimal_of percent_of in_a_week review streak p.settings;
  }
  profile_step settings_unread p = record p {
    settings = settings_failed decimal_of percent_of in_a_week p.settings;
  }
  profile_step (goal_selected next) p = select next p
  profile_step (retention_chosen rounded) p = record {
    settings = commit_retention_percent decimal_of percent_of in_a_week rounded p.settings;
    requests =
        p.requests
        ++ retention_request (decimal_of (clamped decimal_of percent_of in_a_week rounded))
            p.settings.retention_percent
          ∷ [];
  }
  profile_step (vacation_switched next_active) p = if p.settings.saving_streak then p else record {
    settings = toggle_vacation decimal_of percent_of in_a_week next_active p.settings;
    requests = p.requests ++ vacation_request next_active p.settings.streak ∷ [];
  }
  profile_step freeze_pressed p = press_freeze p
  profile_step (answered place answer) p = elim (get_elem? p.requests place) [
    | none ↦ p
    | some request ↦ record {
      settings = answer_to request answer p.settings;
      requests = remove_at place p.requests;
    }
  ]

  abbrev pub profile_run :
      List (SettingsEvent Decimal) → ProfileState Decimal → ProfileState Decimal
  profile_run [] p = p
  profile_run (event ∷ events) p = profile_run events (profile_step event p)
