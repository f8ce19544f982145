-- ===== src/Scheduler/Cycle/Due.antt =====
-- What an entry does when it is due, over the queue of internal/queue/queue.go.
use yafe.Prelude.{ℕ, ◌≡◌, ◌≢◌, Bool, true, some, [], arith}
use yafe.Text.{Text, trim_space}
use yafe.Text.Laws.{text_eq_refl}
use yafe.Result.{ok}
use yafe.Disk.{Disk, at}
use yafe.Names.{validate_flow_name, validate_schedule_name}
use yafe.Job.{Job, pending, job_filename}
use yafe.Queue.{FileQueue, status_dir, job_path, enqueue}
use yafe.Queue.Enqueue.{new_job, enqueue_works, enqueue_atomic, enqueue-outcomes}
use yafe.Schedule.{Schedule}
use yafe.Schedule.Store.{FileStore, store_get}
use yafe.Schedule.Store.Laws.{
  view, store_get_found, store_get-works, view-store_save, store_save-works, store_save_elsewhere,
}
use yafe.Scheduler.Cycle.{schedule_job}

module _ {C : Type 0} (q : FileQueue C) (st : FileStore C) (exists : Text → Bool) (made now : ℕ)
    (id name : Text) (current : Schedule) (disk : Disk C) where
  abbrev due_job : Job
  due_job = new_job made id current.flow current.inputs

  abbrev run_schedule : Schedule
  run_schedule = record current { last_run_at = some now }

  -- If a schedule is stored under its name, which is valid and has no space around it, its flow has a
  -- valid name and exists, the schedules are not in the directory of the pending jobs and every call
  -- of the disk works, then an entry that is due makes a
  -- pending job of the schedule's flow and inputs, and stores the schedule with the time as its last
  -- run and otherwise as it was.
  pub schedule_job_due :
      disk.outcomes ≡ []
      → status_dir q pending ≢ st.dir
      → trim_space name ≡ name
      → validate_schedule_name name ≡ ok tt
      → view st disk name ≡ some current
      → current.name ≡ name
      → validate_flow_name (trim_space current.flow) ≡ ok tt
      → exists (trim_space current.flow) ≡ true
      → let after = (schedule_job st (enqueue q exists made id) now name disk).1 in
        (at after (job_path q pending (job_filename due_job)) ≡ some (q.codec.encode due_job))
        × (view st after name ≡ some run_schedule)
  unfolding schedule_job
  schedule_job_due works away trimmed valid found named flow there =
      let d1 = (store_get st name disk).1 in
      let d2 = (enqueue q exists made id current.flow current.inputs d1).1 in
      let got = store_get_found st disk name current works (rw trimmed valid) (rw trimmed found) in
      let works1 = store_get-works st disk name works in
      let works2 = enqueue-outcomes q exists made id current.flow current.inputs d1 works1 in
      let queued : (enqueue q exists made id current.flow current.inputs d1).0 ≡ ok due_job =
        ground (
          arith,
          enqueue_works q exists made id current.flow current.inputs d1 works1,
          flow,
          there,
        ) in
      let pending_there =
        (enqueue_atomic q exists made id current.flow current.inputs d1).0 due_job queued in
      let saved = (store_save-works st d2 run_schedule works2).0 in
      let kept =
        store_save_elsewhere st d2 run_schedule (job_path q pending (job_filename due_job)) away in
      let stored = view-store_save st d2 run_schedule name in
      ground (
        arith,
        got,
        queued,
        pending_there,
        saved,
        kept,
        stored,
        named,
        trimmed,
        valid,
        text_eq_refl name,
      )
