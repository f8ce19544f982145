-- ===== src/Scheduler/Running/Switches.antt =====
-- Deleting, enabling and disabling a schedule.
use yafe.Prelude.{◌≡◌, inl, inr, true, false, [], arith, ap}
use yafe.Text.{Text, trim_space}
use yafe.Text.Laws.{text_eq_iff}
use yafe.Result.{Result-cases}
use yafe.Names.{validate_schedule_name}
use yafe.Schedule.Store.{store_get}
use yafe.Schedule.Store.Laws.{
  view, store_get_ok, store_get_valid, store_get-files, view-store_save, store_save-works,
  view-store_delete, store_delete_gone,
}
use yafe.Scheduler.{Scheduler, State, cron_spec, on_disk, remove_entry, delete, enable, disable}
use yafe.Scheduler.Entries.{entries-remove_entry, disk-remove_entry}
use yafe.Scheduler.Running.{IsRunning, start_stored-covered, same_spec, remove_entry_ok}
use yafe.Scheduler.Invariant.{IsConsistent, get-IsConsistent}

module _ {C K : Type 0} (sched : Scheduler C K) where
  module _ (s : State C K) (c : IsConsistent sched s) (run : IsRunning sched s) where
    pub delete-IsRunning :
        (name : Text) → trim_space name ≡ name → IsRunning sched (delete sched name s).1
    unfolding delete
    delete-IsRunning name trimmed =
        let s1 = (remove_entry sched name s).1 in
        let same = disk-remove_entry sched s name in
        record {
          covered = λ n. elim (Result-cases (validate_schedule_name name)) [
            | inl (_, v) ↦
                let gone =
                  store_delete_gone sched.store s1.disk name (rw same c.works) (rw trimmed v) in
                ground (
                  arith,
                  v,
                  gone,
                  remove_entry_ok sched name s,
                  ap (λ d. view sched.store d n) same,
                  run.covered n,
                  entries-remove_entry sched s c.linked name n,
                  view-store_delete sched.store s1.disk name n,
                  text_eq_iff name n,
                  trimmed,
                )
            | inr (e, v) ↦ ground (arith, v, run.covered n)
          ];
        }

    pub disable-IsRunning :
        (name : Text) → trim_space name ≡ name → IsRunning sched (disable sched name s).1
    unfolding disable
    disable-IsRunning name trimmed =
        let s1 = (on_disk {K = K} (store_get sched.store name) s).1 in
        let same = store_get-files sched.store s.disk name in
        elim (Result-cases (on_disk {K = K} (store_get sched.store name) s).0) [
          | inl (schedule, h) ↦
              let found = store_get_ok sched.store s.disk name h in
              let named = c.named name schedule (rw trimmed at found) in
              let off = record schedule { enabled = false } in
              let s2 = (remove_entry sched name s1).1 in
              let got = get-IsConsistent sched s c name in
              let there = disk-remove_entry sched s1 name in
              let works : s2.disk.outcomes ≡ [] = rw there got.works in
              let saved = (store_save-works sched.store s2.disk off works).0 in
              let valid = store_get_valid sched.store s.disk name h in
              let spec = same_spec sched schedule false schedule.created_at schedule.last_run_at in
              record {
                covered = λ n. ground (
                  arith,
                  h,
                  same,
                  run.covered n,
                  run.covered (trim_space name),
                  found,
                  trimmed,
                  named,
                  saved,
                  valid,
                  spec,
                  remove_entry_ok sched name s1,
                  ap (λ d. view sched.store d n) there,
                  entries-remove_entry sched s1 got.linked name n,
                  view-store_save sched.store s2.disk off n,
                  text_eq_iff name n,
                );
              }
          | inr (e, h) ↦ record { covered = λ n. ground (arith, h, run.covered n, same) }
        ]

    pub enable-IsRunning :
        (name : Text) → trim_space name ≡ name → IsRunning sched (enable sched name s).1
    unfolding enable
    enable-IsRunning name trimmed =
        let s1 = (on_disk {K = K} (store_get sched.store name) s).1 in
        let same = store_get-files sched.store s.disk name in
        elim (Result-cases (on_disk {K = K} (store_get sched.store name) s).0) [
          | inl (schedule, h) ↦
              let found = store_get_ok sched.store s.disk name h in
              let on = record schedule { enabled = true } in
              let parses : sched.cron.parses (cron_spec on) ≡ true = ground (
                arith,
                run.covered (trim_space name),
                found,
                same_spec sched schedule true schedule.created_at schedule.last_run_at,
              ) in
              record {
                covered = λ n.
                    ground
                      (arith, h, same, run.covered n, start_stored-covered sched on s1 n parses);
              }
          | inr (e, h) ↦ record { covered = λ n. ground (arith, h, run.covered n, same) }
        ]
