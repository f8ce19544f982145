-- ===== src/Scheduler/Running/Changes.antt =====
-- Creating and updating a schedule.
use yafe.Prelude.{ℕ, ◌≡◌, inl, inr, true, false, [], arith, ap}
use yafe.Text.{text_eq, trim_space}
use yafe.Result.{ok, Result-cases}
use yafe.Names.{validate_schedule_name}
use yafe.Schedule.{Schedule}
use yafe.Schedule.Store.{store_exists, store_get}
use yafe.Schedule.Store.Laws.{view, store_get-files, store_exists-files}
use yafe.Scheduler.{
  Scheduler, State, cron_spec, on_disk, remove_entry, validate, validate_expression, create, update,
  preserving,
}
use yafe.Scheduler.Entries.{entries-remove_entry, disk-remove_entry}
use yafe.Scheduler.Running.{
  is_covered, IsRunning, store_and_start-covered, same_spec, remove_entry_ok,
}
use yafe.Scheduler.Invariant.{stored, IsConsistent, get-IsConsistent, exists-IsConsistent}

module _ {C K : Type 0} (sched : Scheduler C K) where
  module _ (s : State C K) (c : IsConsistent sched s) (run : IsRunning sched s) where
    -- What `Create` and `Update` check of a schedule.
    validated :
        (schedule : Schedule)
        → (validate sched schedule s).0 ≡ ok tt
        → (validate_schedule_name schedule.name ≡ ok tt)
          × (sched.cron.parses (cron_spec schedule) ≡ true)
    unfolding validate validate_expression
    validated schedule h = ground arith

    validate-state : (schedule : Schedule) → (validate sched schedule s).1 ≡ s
    unfolding validate
    validate-state schedule = ground arith

    pub update-IsRunning :
        (schedule : Schedule)
        → trim_space schedule.name ≡ schedule.name
        → IsRunning sched (update sched schedule s).1
    unfolding update
    update-IsRunning schedule trimmed =
        let name = schedule.name in
        let s1 = (on_disk {K = K} (store_get sched.store name) s).1 in
        let s2 = (remove_entry sched name s1).1 in
        let same = store_get-files sched.store s.disk name in
        let there = disk-remove_entry sched s1 name in
        let got = get-IsConsistent sched s c name in
        let works : s2.disk.outcomes ≡ [] = rw there got.works in
        let kept = validate-state schedule in
        elim (Result-cases (validate sched schedule s).0) [
          | inl (_, v) ↦ elim (Result-cases (on_disk {K = K} (store_get sched.store name) s).0) [
            | inl (existing, h) ↦
                let (valid, parses) = validated schedule v in
                let new = preserving sched existing schedule in
                let spec =
                  same_spec sched schedule schedule.enabled existing.created_at
                    existing.last_run_at in
                record {
                  covered = λ n.
                      let other : text_eq name n ≡ false
                          → is_covered sched (stored sched s2 n) (s2.entries n) ≡ true =
                        λ differ. ground (
                          arith,
                          differ,
                          same,
                          run.covered n,
                          ap (λ d. view sched.store d n) there,
                          entries-remove_entry sched s1 got.linked name n,
                        ) in
                      let last =
                        store_and_start-covered sched new s2 n works (rw trimmed valid)
                          (rw spec parses) other in
                      ground (arith, v, kept, h, remove_entry_ok sched name s1, last);
                }
            | inr (e, h) ↦ record { covered = λ n. ground (arith, v, kept, h, run.covered n, same) }
          ]
          | inr (e, v) ↦ record { covered = λ n. ground (arith, v, kept, run.covered n) }
        ]

    pub create-IsRunning :
        (now : ℕ) (schedule : Schedule)
        → trim_space schedule.name ≡ schedule.name
        → IsRunning sched (create sched now schedule s).1
    unfolding create
    create-IsRunning now schedule trimmed =
        let name = schedule.name in
        let s1 = (on_disk {K = K} (store_exists sched.store name) s).1 in
        let same = store_exists-files sched.store s.disk name in
        let looked = exists-IsConsistent sched s c name in
        let kept = validate-state schedule in
        elim (Result-cases (validate sched schedule s).0) [
          | inl (_, v) ↦ elim (Result-cases (on_disk {K = K} (store_exists sched.store name) s).0) [
            | inl (found, h) ↦
                let (valid, parses) = validated schedule v in
                let new = record schedule { created_at = now } in
                let spec = same_spec sched schedule schedule.enabled now schedule.last_run_at in
                record {
                  covered = λ n.
                      let other : text_eq name n ≡ false
                          → is_covered sched (stored sched s1 n) (s1.entries n) ≡ true =
                        λ differ. ground (arith, same, run.covered n) in
                      let last =
                        store_and_start-covered sched new s1 n looked.works (rw trimmed valid)
                          (rw spec parses) other in
                      ground (arith, v, kept, h, last, same, run.covered n);
                }
            | inr (e, h) ↦ record { covered = λ n. ground (arith, v, kept, h, run.covered n, same) }
          ]
          | inr (e, v) ↦ record { covered = λ n. ground (arith, v, kept, run.covered n) }
        ]
