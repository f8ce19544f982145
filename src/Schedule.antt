-- ===== src/Schedule.antt =====
-- internal/scheduler/schedule.go and internal/scheduler/store.go: schedules as files
-- `<name>.json` of one directory.
pub mod Store
use yafe.Prelude.{ℕ, ◌≡◌, Bool, true, false, ◌||◌, Option, List, if◌then◌else◌}
use yafe.Text.{Text, codes, text_eq}
use yafe.Result.{Result, ok, err, invalid_schedule_type}

pub record Schedule : Type 0 where
  pub name : Text
  pub flow : Text
  pub inputs : List (Text × Text)
  -- a `ScheduleType`, which is a string and may be no valid one
  pub kind : Text
  pub expression : Text
  pub enabled : Bool
  pub created_at : ℕ
  pub last_run_at : Option ℕ

abbrev pub cron_type : Text
cron_type = codes "cron"

abbrev pub interval_type : Text
interval_type = codes "interval"

-- `ScheduleType.IsValid`
unfoldable pub is_valid_type : Text → Bool
is_valid_type kind = text_eq kind cron_type || text_eq kind interval_type

unfoldable pub validate_schedule_type : Text → Result (Unit {0})
unfolding is_valid_type
validate_schedule_type kind = if is_valid_type kind then ok tt else err invalid_schedule_type
