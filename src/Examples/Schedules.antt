-- ===== src/Examples/Schedules.antt =====
-- Witnesses for the scheduler, with a cron runner that keeps its entries in a list.
use yafe.Names.{matches_name, validate_schedule_name}
use yafe.Prelude.{
  ℕ, ◌≤◌, ◌≡◌, refl, true, Option, none, some, List, [], ◌∷◌, ◌==◌, length, arith, if◌then◌else◌,
  ==_iff, ◌&&◌,
}
use yafe.Text.{has_suffix, trim_suffix, is_empty, Text, codes, trim_space, text_eq}
use yafe.Result.{is_ok}
use yafe.Disk.{without, path_eq, put, replace_file, find, Disk, working, fails, works}
use yafe.Schedule.{validate_schedule_type, Schedule, interval_type}
use yafe.Schedule.Store.{store_exists, FileStore, store_save}
use yafe.Schedule.Store.Laws.{view, view-store_save}
use yafe.Scheduler.{add_entry, validate_expression, validate, Cron, Scheduler, State, create}
use yafe.Scheduler.Reached.{create_call, perform, at_start, after_call}
use yafe.Examples.{value_codec}
use yafe.Text.Laws.{append_cancel}
use yafe.Disk.{FilePath, names_in}
use yafe.Disk.Laws.{path_eq_iff}
use yafe.Schedule.Store.{sort_schedules, store_list, schedule_path, schedule_file_extension}
use yafe.Scheduler.Cycle.{start_entries, start, update_flow_references}
use yafe.Scheduler.Started.{new, started_runs}
use yafe.Scheduler.Cycle.Renamed.{update_flow_references_exact}

-- An entry that was removed stays as `none`, so that the ids of the others do not change.
abbrev Entries : Type 0
Entries = List (Option Text)

abbrev entry_calls : Entries → ℕ → Option Text
entry_calls [] id = none
entry_calls (e ∷ es) id = if length es == id then e else entry_calls es id

abbrev entry_removed : ℕ → Entries → Entries
entry_removed old [] = []
entry_removed old (e ∷ es) = if length es == old then none ∷ es else e ∷ entry_removed old es

length-entry_removed : (old : ℕ) (es : Entries) → length (entry_removed old es) ≡ length es
length-entry_removed old [] = refl
length-entry_removed old (e ∷ es) = ground (arith, length-entry_removed old es)

calls_fresh : (es : Entries) (id : ℕ) → length es ≤ id → entry_calls es id ≡ none
calls_fresh [] id h = refl
calls_fresh (e ∷ es) id h = ground (arith, calls_fresh es id)

calls_removed :
    (old : ℕ) (es : Entries) (id : ℕ)
    → entry_calls (entry_removed old es) id ≡ (if old == id then none else entry_calls es id)
calls_removed old [] id = ground arith
calls_removed old (e ∷ es) id = ground (
  arith,
  calls_removed old es id,
  length-entry_removed old es,
  ==_iff old id,
  ==_iff (length es) id,
  ==_iff (length es) old,
)

abbrev list_cron : Cron Entries
list_cron = record {
  parses = λ spec. true;
  add_func = λ spec name es. (length es, some name ∷ es);
  remove_entry = entry_removed;
  calls = entry_calls;
  next = λ es id. none;
  add_fresh = λ spec name es. calls_fresh es (length es) (omega arith);
  calls-add_func = λ spec name es id. refl;
  calls-remove_entry = calls_removed;
}

abbrev schedules_store : FileStore (Option Schedule)
schedules_store = record { dir = codes "s"; codec = value_codec Schedule }

abbrev pub hourly : Schedule
hourly = record {
  name = codes "hourly";
  flow = codes "backup";
  inputs = [];
  kind = interval_type;
  expression = codes "1h";
  enabled = true;
  created_at = 0;
  last_run_at = none;
}

abbrev list_scheduler : Scheduler (Option Schedule) Entries
list_scheduler = record { store = schedules_store; cron = list_cron; flow_exists = λ name. true }

hourly_is_trimmed : trim_space hourly.name ≡ hourly.name
unfolding trim_space
hourly_is_trimmed = refl

-- One schedule is stored when the program starts, and another one is made.
abbrev stored_files : List (FilePath × Option Schedule)
stored_files = (schedule_path schedules_store hourly.name, some hourly) ∷ []

stored_named :
    (n : Text) (t : Schedule) → view schedules_store (working stored_files) n ≡ some t → t ≡ hourly
unfolding find
stored_named n t h = ground arith

stored_name :
    (n : Text) (t : Schedule) → view schedules_store (working stored_files) n ≡ some t → t.name ≡ n
unfolding find
stored_name n t h = ground (
  arith,
  path_eq_iff (schedule_path schedules_store hourly.name) (schedule_path schedules_store n),
  append_cancel schedule_file_extension hourly.name n,
)

abbrev nightly : Schedule
nightly = record hourly { name = codes "nightly" }

abbrev began : State (Option Schedule) Entries
began = (start list_scheduler (new list_scheduler stored_files [])).1

-- The entry that the start made is there after the call.
abbrev both_run : State (Option Schedule) Entries
both_run = perform list_scheduler (create_call 5 nightly) began

started_runs_example : (id : ℕ) × (list_cron.calls both_run.runner id ≡ some hourly.name)
unfolding names_in text_eq trim_space find create validate validate_schedule_name is_empty
    matches_name validate_schedule_type validate_expression store_exists store_save replace_file put
    path_eq add_entry without start store_list start_entries has_suffix trim_suffix sort_schedules
started_runs_example =
    (started_runs list_scheduler stored_files [] (λ id. refl) stored_name (tt, tt) (λ n t h. refl)
        both_run (after_call (create_call 5 nightly) began at_start refl) hourly.name).1.1
      refl

update_flow_references_exact_example :
    view schedules_store
      (update_flow_references schedules_store
        (codes "backup")
        (codes "save")
        (working stored_files)).1
      hourly.name
    ≡ some (record hourly { flow = codes "save" })
unfolding names_in find path_eq text_eq validate_schedule_name is_empty trim_space matches_name
update_flow_references_exact_example =
    update_flow_references_exact schedules_store (codes "backup") (codes "save") stored_files
      stored_name (λ n t h. rw (stored_named n t h) refl) (tt, tt) hourly.name

-- The write works and the rename fails, so the schedule is not there.
abbrev failing : Disk (Option Schedule)
failing = record { files = []; outcomes = works ∷ fails ∷ [] }

view-store_save_example :
    view schedules_store (store_save schedules_store hourly failing).1 hourly.name ≡ (
      if text_eq hourly.name hourly.name && is_ok (store_save schedules_store hourly failing).0
      then some hourly
      else view schedules_store failing hourly.name)
view-store_save_example = view-store_save schedules_store failing hourly hourly.name
