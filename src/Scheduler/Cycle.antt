-- ===== src/Scheduler/Cycle.antt =====
-- The rest of internal/scheduler/scheduler.go: the start, what an entry does when it is due, the
-- readers, and the renaming of flows. Enqueueing a job is a parameter, which the queue fills.
pub mod Due
pub mod Renamed
use yafe.Prelude.{ℕ, Bool, Option, none, some, List, [], ◌∷◌, map}
use yafe.Text.{Text, text_eq, trim_space}
use yafe.Result.{ok}
use yafe.Exec.{pure, attempt, ◌>>=◌, ◌>>◌, wrap, choose, handle}
use yafe.Disk.{Io}
use yafe.Job.{Job}
use yafe.Schedule.{Schedule}
use yafe.Schedule.Store.{FileStore, store_exists, store_list, store_get, store_save}
use yafe.Scheduler.{Scheduler, State, Act, on_disk, add_entry}

-- `ScheduleWithNextRun`
pub record ScheduleWithNextRun : Type 0 where
  pub schedule : Schedule
  pub next_run_at : Option ℕ

module _ {C K : Type 0} (sched : Scheduler C K) where
  -- The loop of `Start`; an entry that cannot be added is only logged.
  unfoldable pub start_entries : List Schedule → Act C K (Unit {0})
  start_entries [] = pure tt
  start_entries (schedule ∷ schedules) =
      let rest = start_entries schedules in
      choose schedule.enabled (do attempt (add_entry sched schedule); rest) rest

  unfoldable pub start : Act C K (Unit {0})
  start = do schedules ← wrap (on_disk (store_list sched.store)); start_entries schedules

  unfoldable pub with_next_run : State C K → Schedule → ScheduleWithNextRun
  with_next_run s schedule = record {
    schedule = schedule;
    next_run_at = elim (s.entries schedule.name) [
      | none ↦ none
      | some id ↦ sched.cron.next s.runner id
    ];
  }

  unfoldable pub list_with_next_run : Act C K (List ScheduleWithNextRun)
  list_with_next_run = do
    schedules ← on_disk (store_list sched.store)
    λ s. (ok (map (with_next_run s) schedules), s)

  unfoldable pub get_with_next_run : Text → Act C K ScheduleWithNextRun
  get_with_next_run name = do
    schedule ← on_disk (store_get sched.store name)
    λ s. (ok (with_next_run s schedule), s)

module _ {C : Type 0} (st : FileStore C) where
  -- `Exists`
  unfoldable pub schedule_exists_trimmed : Text → Io C Bool
  schedule_exists_trimmed name = store_exists st (trim_space name)

  -- What an entry does when it is due: errors are only logged.
  unfoldable pub schedule_job : (Text → List (Text × Text) → Io C Job) → ℕ → Text → Io C (Unit {0})
  schedule_job enqueue now name = do
    loaded ← attempt (store_get st name)
    handle loaded
        (λ current. do
          queued ← attempt (enqueue current.flow current.inputs)
          handle queued
              (λ job. do
                attempt (store_save st (record current { last_run_at = some now }))
                pure tt)
              (λ e. pure tt))
        (λ e. pure tt)

  unfoldable pub update_references : Text → Text → List Schedule → Io C (Unit {0})
  update_references old_name new_name [] = pure tt
  update_references old_name new_name (schedule ∷ schedules) =
      let rest = update_references old_name new_name schedules in
      choose (text_eq schedule.flow old_name)
        (do attempt (store_save st (record schedule { flow = new_name })); rest) rest

  unfoldable pub update_flow_references : Text → Text → Io C (Unit {0})
  update_flow_references old_name new_name = do
    schedules ← wrap (store_list st)
    update_references old_name new_name schedules
