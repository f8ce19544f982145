-- ===== src/Scheduler/Running.antt =====
-- The other half of the scheduler's invariant: a schedule that is stored and enabled has an entry.
pub mod Switches
pub mod Changes
use yafe.Prelude.{
  ℕ, ◌≡◌, ◌≢◌, ◌⊎◌, inl, inr, Bool, true, false, not, ◌||◌, ◌&&◌, Option, none, some, [], arith,
  if◌then◌else◌, ap, sym, refl, Bool-cases,
}
use yafe.Text.{Text, text_eq, trim_space}
use yafe.Text.Laws.{text_eq_refl, text_eq_iff}
use yafe.Result.{Error, Result, ok, err, is_ok, Result-cases}
use yafe.Exec.{◌>>◌, pure, choose}
use yafe.Names.{validate_schedule_name}
use yafe.Schedule.{Schedule}
use yafe.Schedule.Store.{store_exists, store_get, store_save, store_delete}
use yafe.Schedule.Store.Laws.{
  view, store_get_ok, store_get_valid, store_get-files, store_get-works, store_exists-false,
  store_exists-files, store_exists-works, view-store_save, store_save-works, view-store_delete,
  store_delete_gone,
}
use yafe.Scheduler.{
  Scheduler, State, cron_spec, on_disk, add_entry, remove_entry, validate, validate_expression,
  create, update, delete, enable, disable, preserving,
}
use yafe.Scheduler.Entries.{Linked, entries-remove_entry, disk-remove_entry, disk-add_entry}
use yafe.Scheduler.Invariant.{stored, IsConsistent, get-IsConsistent, exists-IsConsistent}

abbrev pub has_entry : Option ℕ → Bool
has_entry none = false
has_entry (some id) = true

module _ {C K : Type 0} (sched : Scheduler C K) where
  -- What is stored can run, and has an entry if it is enabled.
  abbrev pub is_covered : Option Schedule → Option ℕ → Bool
  is_covered none entry = true
  is_covered (some schedule) entry =
      sched.cron.parses (cron_spec schedule) && (not schedule.enabled || has_entry entry)

  pub record IsRunning (s : State C K) : Type 0 where
    pub covered : (name : Text) → is_covered (stored sched s name) (s.entries name) ≡ true

  entries_after_add :
      (schedule : Schedule) (s : State C K) (name : Text)
      → (add_entry sched schedule s).1.entries name ≡ (
          if sched.cron.parses (cron_spec schedule) && text_eq schedule.name name
          then some (sched.cron.add_func (cron_spec schedule) schedule.name s.runner).0
          else s.entries name)
  unfolding add_entry
  entries_after_add schedule s name = ground arith

  -- The states of the stored schedules and of the entries after a schedule is stored and started.
  pub start_stored-covered :
      (schedule : Schedule) (s : State C K) (name : Text)
      → sched.cron.parses (cron_spec schedule) ≡ true
      → let after =
          (on_disk {K = K} (store_save sched.store schedule) >> add_entry sched schedule) s in
        is_covered (stored sched s name) (s.entries name) ≡ true
        → is_covered (stored sched after.1 name) (after.1.entries name) ≡ true
  start_stored-covered schedule s name parses h =
      elim (Result-cases (on_disk {K = K} (store_save sched.store schedule) s).0) [
        | inl (_, k) ↦
            let s1 = (on_disk {K = K} (store_save sched.store schedule) s).1 in
            ground (
              arith,
              k,
              view-store_save sched.store s.disk schedule name,
              entries_after_add schedule s1 name,
              ap (λ d. view sched.store d name) (disk-add_entry sched s1 schedule),
            )
        | inr (e, k) ↦ ground (arith, k, view-store_save sched.store s.disk schedule name)
      ]

  -- The same where nothing is known of the schedule's own name, but the save succeeds.
  pub store_and_start-covered :
      (schedule : Schedule) (s : State C K) (name : Text)
      → s.disk.outcomes ≡ []
      → validate_schedule_name (trim_space schedule.name) ≡ ok tt
      → sched.cron.parses (cron_spec schedule) ≡ true
      → let after =
          (on_disk {K = K} (store_save sched.store schedule)
              >> choose schedule.enabled (add_entry sched schedule) (pure tt))
            s in
        (text_eq schedule.name name ≡ false
          → is_covered (stored sched s name) (s.entries name) ≡ true)
        → is_covered (stored sched after.1 name) (after.1.entries name) ≡ true
  store_and_start-covered schedule s name works valid parses h =
      let s1 = (on_disk {K = K} (store_save sched.store schedule) s).1 in
      let saved = (store_save-works sched.store s.disk schedule works).0 in
      ground (
        arith,
        valid,
        saved,
        view-store_save sched.store s.disk schedule name,
        entries_after_add schedule s1 name,
        ap (λ d. view sched.store d name) (disk-add_entry sched s1 schedule),
      )

  -- The specification does not depend on what the methods set.
  pub same_spec :
      (schedule : Schedule) (enabled : Bool) (created_at : ℕ) (last_run_at : Option ℕ)
      → cron_spec (record schedule {
        enabled = enabled;
        created_at = created_at;
        last_run_at = last_run_at;
      })
        ≡ cron_spec schedule
  unfolding cron_spec
  same_spec schedule enabled created_at last_run_at = refl

  pub remove_entry_ok : (name : Text) (s : State C K) → (remove_entry sched name s).0 ≡ ok tt
  unfolding remove_entry
  remove_entry_ok name s = refl
