-- ===== src/Scheduler.antt =====
-- internal/scheduler/scheduler.go: schedules on disk, and the cron entries of those that are
-- enabled. The library github.com/robfig/cron is a parameter.
pub mod Entries
pub mod Invariant
pub mod Methods
pub mod Running
pub mod Reached
pub mod Started
pub mod Cycle
use yafe.Prelude.{
  ℕ, ◌≡◌, ◌≢◌, Bool, true, false, Option, none, some, List, [], ◌∷◌, ◌++◌, ◌==◌, not, if◌then◌else◌,
}
use yafe.Text.{Text, codes, text_eq, trim_space}
use yafe.Result.{Error, Result, ok, err, unknown_flow, schedule_exists, invalid_expression, wrapped}
use yafe.Exec.{Exec, pure, raise, attempt, ◌>>=◌, ◌>>◌, lift, wrap, choose, handle, match_option}
use yafe.Disk.{Disk, Io}
use yafe.Names.{validate_schedule_name}
use yafe.Schedule.{Schedule, interval_type, validate_schedule_type}
use yafe.Schedule.Store.{FileStore, store_exists, store_list, store_get, store_save, store_delete}

-- The cron runner: whether a specification parses; a new entry for one that does, which will call
-- for a schedule's name; the removal of an entry; and what an entry calls for.
pub record Cron (K : Type 0) : Type 0 where
  pub parses : Text → Bool
  pub add_func : Text → Text → K → ℕ × K
  pub remove_entry : ℕ → K → K
  pub calls : K → ℕ → Option Text
  -- when an entry runs next, if the runner knows
  pub next : K → ℕ → Option ℕ
  -- a new entry has an id that is not in use
  pub add_fresh : (spec name : Text) (k : K) → calls k (add_func spec name k).0 ≡ none
  pub calls-add_func :
      (spec name : Text) (k : K) (id : ℕ)
      → calls (add_func spec name k).1 id
        ≡ (if (add_func spec name k).0 == id then some name else calls k id)
  pub calls-remove_entry :
      (old : ℕ) (k : K) (id : ℕ)
      → calls (remove_entry old k) id ≡ (if old == id then none else calls k id)

pub record Scheduler (C K : Type 0) : Type 0 where
  pub store : FileStore C
  pub cron : Cron K
  -- `Exists` of the flow registry
  pub flow_exists : Text → Bool

-- What changes: the disk of the store, the runner's entries, and the map from names to entries.
pub record State (C K : Type 0) : Type 0 where
  pub disk : Disk C
  pub runner : K
  pub entries : Text → Option ℕ

abbrev pub Act : Type 0 → Type 0 → Type 0 → Type 0
Act C K A = Exec (State C K) A

abbrev pub on_disk : {C K A : Type 0} → Io C A → Act C K A
on_disk m s = ((m s.disk).0, record s { disk = (m s.disk).1 })

-- `cronSpec`
unfoldable pub cron_spec : Schedule → Text
cron_spec schedule =
    if text_eq schedule.kind interval_type
    then codes "@every " ++ schedule.expression
    else schedule.expression

module _ {C K : Type 0} (sched : Scheduler C K) where
  unfoldable pub validate_expression : Schedule → Result (Unit {0})
  validate_expression schedule =
      if sched.cron.parses (cron_spec schedule) then ok tt else err invalid_expression

  -- The new entry replaces what the map has for the name.
  unfoldable pub add_entry : Schedule → Act C K (Unit {0})
  add_entry schedule s =
      if sched.cron.parses (cron_spec schedule)
      then (let (id, k) = sched.cron.add_func (cron_spec schedule) schedule.name s.runner in
          (
            ok tt,
            record s {
              runner = k;
              entries = λ name. if text_eq schedule.name name then some id else s.entries name;
            },
          ))
      else (err invalid_expression, s)

  unfoldable pub remove_entry : Text → Act C K (Unit {0})
  remove_entry name s = (
    ok tt,
    elim (s.entries name) [
      | none ↦ s
      | some id ↦ record s {
        runner = sched.cron.remove_entry id s.runner;
        entries = λ n. if text_eq name n then none else s.entries n;
      }
    ],
  )

  -- What `Create` and `Update` check first.
  unfoldable pub validate : Schedule → Act C K (Unit {0})
  validate schedule = do
    lift (validate_schedule_name schedule.name)
    lift (validate_schedule_type schedule.kind)
    lift (validate_expression schedule)
    choose (sched.flow_exists schedule.flow) (pure tt) (raise (wrapped unknown_flow))

  unfoldable pub create : ℕ → Schedule → Act C K (Unit {0})
  create now schedule = do
    validate schedule
    exists ← on_disk (store_exists sched.store schedule.name)
    choose exists (raise (wrapped schedule_exists)) (pure tt)
    on_disk (store_save sched.store (record schedule { created_at = now }))
    choose schedule.enabled (add_entry (record schedule { created_at = now })) (pure tt)

  -- The schedule as `Update` stores it.
  abbrev pub preserving : Schedule → Schedule → Schedule
  preserving existing schedule = record schedule {
    created_at = existing.created_at;
    last_run_at = existing.last_run_at;
  }

  unfoldable pub update : Schedule → Act C K (Unit {0})
  update schedule = do
    validate schedule
    existing ← on_disk (store_get sched.store schedule.name)
    remove_entry schedule.name
    on_disk (store_save sched.store (preserving existing schedule))
    choose schedule.enabled (add_entry (preserving existing schedule)) (pure tt)

  unfoldable pub delete : Text → Act C K (Unit {0})
  delete name = do
    lift (validate_schedule_name name)
    remove_entry name
    on_disk (store_delete sched.store name)

  unfoldable pub enable : Text → Act C K (Unit {0})
  enable name = do
    schedule ← on_disk (store_get sched.store name)
    choose schedule.enabled (pure tt) (do
      on_disk (store_save sched.store (record schedule { enabled = true }))
      add_entry (record schedule { enabled = true }))

  unfoldable pub disable : Text → Act C K (Unit {0})
  disable name = do
    schedule ← on_disk (store_get sched.store name)
    choose schedule.enabled
        (do
          remove_entry name
          on_disk (store_save sched.store (record schedule { enabled = false })))
        (pure tt)
