-- ===== src/Worker.antt =====
-- internal/queue/worker.go: the worker claims jobs one by one and runs their flows. The engine and
-- the texts of errors are parameters, and so are the instants that the worker reads.
pub mod Finish
pub mod Drained
use yafe.Prelude.{
  ℕ, zero, suc, Bool, true, false, Option, none, some, List, ◌++◌, ◌⊎◌, inl, inr, if◌then◌else◌,
}
use yafe.Text.{Text, codes}
use yafe.Result.{Error, Result, ok, err}
use yafe.Disk.{
  Disk, Io, pure, attempt, ◌>>=◌, ◌>>◌, wrap, handle, match_option, choose, write_file, put,
}
use yafe.Job.{Job}
use yafe.Queue.{FileQueue, log_file, dequeue, mark_done, mark_failed}
use yafe.Queue.Cleanup.{run_cleanup}

-- `engine.Executor`: loading the flow of a name gives an error message or a flow, and a run of it
-- on the inputs of a job ends with an error message or with none, and has written the log. What else the
-- commands of a flow do to the machine is not seen here; they leave the files of the queue alone.
pub record Executor (C F : Type 0) : Type 0 where
  pub load : Text → Text ⊎ F
  pub run : F → List (Text × Text) → Option Text × C

pub record Worker (C F : Type 0) : Type 0 where
  pub queue : FileQueue C
  pub engine : Executor C F
  -- `err.Error()` for the errors of this library
  pub error_text : Error → Text
  -- the contents of a file that was just created
  pub empty_file : C
  -- whether another worker holds the lock of a pending file
  pub held : Text → Bool

module _ {C F : Type 0} (w : Worker C F) (finish : ℕ) where
  -- What the open log file then holds.
  abbrev logged : Job → C → Io C (Unit {0})
  logged job output disk =
      (ok tt, record disk { files = put (log_file w.queue job.id) output disk.files })

  run_flow : Job → F → Io C (Unit {0})
  unfolding put
  run_flow job flow =
      let (failure, output) = w.engine.run flow job.inputs in
      do
        logged job output
        match_option failure (mark_done w.queue finish job 0)
            (λ message. mark_failed w.queue finish job 1 message)

  create_log : Job → F → Io C (Unit {0})
  unfolding write_file run_flow
  create_log job flow = do
    created ← attempt (write_file (log_file w.queue job.id) w.empty_file)
    handle created (λ _. run_flow job flow)
        (λ e. mark_failed w.queue finish job 1 (codes "creating log file: " ++ w.error_text e))

  abbrev loaded : Job → Text ⊎ F → Io C (Unit {0})
  loaded job result disk = elim result [
    | inl message ↦ mark_failed w.queue finish job 1 message disk
    | inr flow ↦ create_log job flow disk
  ]

  -- `processNext` after the job is claimed.
  unfoldable pub process_job : Job → Io C (Unit {0})
  unfolding create_log
  process_job job = loaded job (w.engine.load job.flow)

-- The answer is whether there was a job.
unfoldable pub process_next : {C F : Type 0} → Worker C F → ℕ → ℕ → Io C Bool
process_next w start finish = do
  claimed ← wrap (dequeue w.queue w.held start)
  match_option claimed (pure false) (λ job. do process_job w finish job; pure true)

-- `drainQueue`, for at most as many jobs as the fuel says. The instants at which a job starts and
-- finishes, and whether the context is done before it, are given for each fuel that may be left.
unfoldable pub drain_queue :
    {C F : Type 0} → Worker C F → (ℕ → ℕ) → (ℕ → ℕ) → (ℕ → Bool) → ℕ → Disk C → Disk C
drain_queue w starts finishes cancelled zero disk = disk
drain_queue w starts finishes cancelled (suc fuel) disk =
    let next = process_next w (starts fuel) (finishes fuel) disk in
    let rest = drain_queue w starts finishes cancelled fuel next.1 in
    if cancelled fuel
    then disk
    else elim next.0 [ ok processed ↦ if processed then rest else next.1 | err e ↦ next.1 ]
