-- ===== src/App/Settings.antt =====
-- The settings of the profile screen: frontend/src/features/profile/ProfileScreen.tsx.
-- A change is shown at once and sent; its answer is an event that carries what the closure of the
-- handler captured. A retention is a number of `Decimal`, `decimal_of` the one that a percentage is
-- sent as and `percent_of` its percentage, rounded; `t` is left out of the messages, `in_a_week` is the
-- date a week from now. `none` as an answer is an answer without a body.
pub mod Requests
pub mod Limits
pub mod Goals
pub mod Settled
pub mod Crossing
mod Tests
use project_pn.Prelude.{
  ℕ, min, max, String, Bool, true, false, Option, none, some, List, [], ◌∷◌, eqb, if◌then◌else◌,
  or_else, or_option,
}

pub record ReviewSettings (Decimal : Type 0) : Type 0 where
  pub daily_goal_xp : ℕ
  pub desired_retention : Decimal

pub record StreakSettings : Type 0 where
  pub streak_freeze_tokens : ℕ
  pub vacation_mode_active : Bool
  pub vacation_mode_until : Option String

-- `sent` are the retentions that were sent, the last one first.
pub record Settings (Decimal : Type 0) : Type 0 where
  pub review : Option (ReviewSettings Decimal)
  pub streak : Option StreakSettings
  pub saved_goal_xp : ℕ
  pub selected_goal_xp : ℕ
  pub retention_percent : ℕ
  pub saving_streak : Bool
  pub daily_goal_error : Option String
  pub retention_error : Option String
  pub streak_error : Option String
  pub sent : List Decimal

abbrev pub retention_min : ℕ
retention_min = 70

abbrev pub retention_max : ℕ
retention_max = 97

abbrev pub goal_of : {Decimal : Type 0} → Option (ReviewSettings Decimal) → ℕ → ℕ
goal_of none next = next
goal_of (some updated) next = updated.daily_goal_xp

abbrev pub retention_of : {Decimal : Type 0} → Option (ReviewSettings Decimal) → Decimal → Decimal
retention_of none decimal = decimal
retention_of (some updated) decimal = updated.desired_retention

-- `{ ...prev, ...updated, daily_goal_xp: committed }`, and `updated` where there is no `prev`
abbrev pub merge_goal :
    {Decimal : Type 0}
    → ℕ
    → (updated prev : Option (ReviewSettings Decimal)) → Option (ReviewSettings Decimal)
merge_goal committed updated none = updated
merge_goal committed updated (some prev) =
    some (record (or_else updated prev) { daily_goal_xp = committed })

abbrev pub merge_retention :
    {Decimal : Type 0}
    → Decimal
    → (updated prev : Option (ReviewSettings Decimal)) → Option (ReviewSettings Decimal)
merge_retention committed updated none = updated
merge_retention committed updated (some prev) =
    some (record (or_else updated prev) { desired_retention = committed })

abbrev pub with_vacation : Bool → Option StreakSettings → Option StreakSettings
with_vacation active none = none
with_vacation active (some streak) = some (record streak { vacation_mode_active = active })

-- The streak where the answer has none.
abbrev pub changed_streak : Bool → Option String → Option StreakSettings → StreakSettings
changed_streak active until none = record {
  streak_freeze_tokens = 0;
  vacation_mode_active = active;
  vacation_mode_until = until;
}
changed_streak active until (some streak) = record streak {
  vacation_mode_active = active;
  vacation_mode_until = until;
}

module _ {Decimal : Type 0} (decimal_of : ℕ → Decimal) (percent_of : Decimal → ℕ)
    (in_a_week : String) where
  unfoldable pub settings_loaded :
      ReviewSettings Decimal → StreakSettings → Settings Decimal → Settings Decimal
  settings_loaded review streak s = record s {
    review = some review;
    streak = some streak;
    saved_goal_xp = review.daily_goal_xp;
    selected_goal_xp = review.daily_goal_xp;
    retention_percent = percent_of review.desired_retention;
  }

  abbrev pub settings_failed : Settings Decimal → Settings Decimal
  settings_failed s = record s { review = none; streak = none }

  -- `handleSelectDailyGoal` with the parsed number, none where it is not finite; the state, and whether
  -- a request is sent.
  unfoldable pub select_goal : Option ℕ → Settings Decimal → Settings Decimal × Bool
  select_goal none s = (s, false)
  select_goal (some next) s =
      if eqb next s.selected_goal_xp
      then (s, false)
      else (record s { selected_goal_xp = next; daily_goal_error = none }, true)

  unfoldable pub goal_saved :
      (next : ℕ) → (updated : Option (ReviewSettings Decimal)) → Settings Decimal → Settings Decimal
  goal_saved next updated s = record s {
    review = merge_goal (goal_of updated next) updated s.review;
    saved_goal_xp = goal_of updated next;
    selected_goal_xp = goal_of updated next;
  }

  unfoldable pub goal_failed : (prev_goal : ℕ) → Settings Decimal → Settings Decimal
  goal_failed prev_goal s = record s {
    selected_goal_xp = prev_goal;
    daily_goal_error = some "settings.dailyGoalSaveFailed";
  }

  -- The percentage that is asked for, rounded, within the limits.
  abbrev pub clamped : ℕ → ℕ
  clamped percent = max retention_min (min retention_max percent)

  unfoldable pub commit_retention_percent : (rounded : ℕ) → Settings Decimal → Settings Decimal
  commit_retention_percent rounded s = record s {
    retention_percent = clamped rounded;
    retention_error = none;
    sent = decimal_of (clamped rounded) ∷ s.sent;
  }

  unfoldable pub retention_saved :
      Decimal → (updated : Option (ReviewSettings Decimal)) → Settings Decimal → Settings Decimal
  retention_saved decimal updated s = record s {
    review = merge_retention (retention_of updated decimal) updated s.review;
    retention_percent = percent_of (retention_of updated decimal);
  }

  unfoldable pub retention_failed : (prev_percent : ℕ) → Settings Decimal → Settings Decimal
  retention_failed prev_percent s = record s {
    retention_percent = prev_percent;
    retention_error = some "settings.desiredRetentionSaveFailed";
  }

  unfoldable pub toggle_vacation : (next_active : Bool) → Settings Decimal → Settings Decimal
  toggle_vacation next_active s = record s {
    saving_streak = true;
    streak_error = none;
    streak = with_vacation next_active s.streak;
  }

  unfoldable pub vacation_saved :
      (next_active : Bool)
      → (updated prev_streak : Option StreakSettings) → Settings Decimal
      → Settings Decimal
  vacation_saved next_active updated prev_streak s = record s {
    streak = some (
        or_else updated
          (changed_streak next_active (if next_active then some in_a_week else none) prev_streak));
    saving_streak = false;
  }

  unfoldable pub vacation_failed :
      (prev_streak : Option StreakSettings) → Settings Decimal → Settings Decimal
  vacation_failed prev_streak s = record s {
    streak = prev_streak;
    streak_error = some "settings.vacationModeSaveFailed";
    saving_streak = false;
  }

  -- `useStreakFreeze`, up to the request, and whether it is sent.
  unfoldable pub use_streak_freeze : Settings Decimal → Settings Decimal × Bool
  use_streak_freeze s = elim s.streak [
    | none ↦ (record s { streak_error = some "settings.streakFreezeUnavailable" }, false)
    | some streak ↦
        if eqb streak.streak_freeze_tokens 0
        then (record s { streak_error = some "settings.streakFreezeUnavailable" }, false)
        else (record s { saving_streak = true; streak_error = none }, true)
  ]

  unfoldable pub freeze_saved : Option StreakSettings → Settings Decimal → Settings Decimal
  freeze_saved updated s = record s { streak = or_option updated s.streak; saving_streak = false }

  abbrev pub freeze_failed : Settings Decimal → Settings Decimal
  freeze_failed s = record s {
    streak_error = some "settings.streakFreezeSaveFailed";
    saving_streak = false;
  }
