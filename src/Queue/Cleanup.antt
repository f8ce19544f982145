-- ===== src/Queue/Cleanup.antt =====
-- `RunCleanup` and `CleanupEnabled` of internal/queue/queue.go.
pub mod Expiry
use yafe.Prelude.{
  ℕ, ◌+◌, Bool, true, false, ◌||◌, Option, none, some, List, [], ◌∷◌, ltb, if◌then◌else◌,
}
use yafe.Text.{Text, has_suffix}
use yafe.Result.{Error, Result, ok, err, os_is_not_exist, wrapped}
use yafe.Disk.{
  Io, pure, raise, attempt, ◌>>=◌, ◌>>◌, wrap, choose, handle, read_file, remove, read_dir,
}
use yafe.Job.{Job, JobStatus, done, failed, json_suffix}
use yafe.Queue.{FileQueue, status_dir, job_path, log_file, read_job}

-- `job.EndedAt != nil && job.EndedAt.Before(now - retention)`, with the subtraction moved across.
unfoldable pub expired : ℕ → ℕ → Job → Bool
expired now retention job = elim job.ended_at [
  | none ↦ false
  | some instant ↦ ltb (instant + retention) now
]

module _ {C : Type 0} (q : FileQueue C) (now : ℕ) where
  -- Removes one file and its log, and says whether the file is gone; errors are only logged.
  remove_job : JobStatus → Text → Job → Io C ℕ
  unfolding remove
  remove_job status filename job = do
    removed ← attempt (remove (job_path q status filename))
    handle removed (λ _. do attempt (remove (log_file q job.id)); pure 1) (λ e. pure 0)

  cleanup_file : JobStatus → ℕ → Text → Io C ℕ
  unfolding read_job remove_job
  cleanup_file status retention filename =
      choose (has_suffix filename json_suffix)
        (do
          job ← attempt (read_job q status filename)
          handle job (λ j. choose (expired now retention j) (remove_job status filename j) (pure 0))
              (λ e. pure 0))
        (pure 0)

  cleanup_files : JobStatus → ℕ → List Text → Io C ℕ
  unfolding cleanup_file
  cleanup_files status retention [] = pure 0
  cleanup_files status retention (filename ∷ filenames) = do
    cleaned ← cleanup_file status retention filename
    more ← cleanup_files status retention filenames
    pure (cleaned + more)

  unfoldable pub cleanup_status : JobStatus → ℕ → Io C ℕ
  unfolding read_dir cleanup_files
  cleanup_status status retention = do
    entries ← attempt (read_dir (status_dir q status))
    handle entries (λ filenames. cleanup_files status retention filenames)
        (λ e. choose (os_is_not_exist e) (pure 0) (raise e))

  unfoldable pub run_cleanup : Io C ℕ
  run_cleanup = do
    of_done ← choose (ltb 0 q.done_retention) (wrap (cleanup_status done q.done_retention)) (pure 0)
    of_failed ←
        choose (ltb 0 q.failed_retention) (wrap (cleanup_status failed q.failed_retention)) (pure 0)
    pure (of_done + of_failed)

unfoldable pub cleanup_enabled : {C : Type 0} → FileQueue C → Bool
cleanup_enabled q = ltb 0 q.done_retention || ltb 0 q.failed_retention
