-- ===== src/Queue.antt =====
-- internal/queue/queue.go: a queue of jobs kept as files `<created>-<id>.json` in one directory for
-- each status. A method of `FileQueue` is a procedure over the disk; the instant and the random id
-- that it draws are arguments.
pub mod Paths
pub mod Remaining
pub mod Move
pub mod Claim
pub mod Dequeue
pub mod Enqueue
pub mod Find
pub mod Cleanup
pub mod Workers
use yafe.Prelude.{
  ℕ, ◌+◌, Bool, true, false, ◌&&◌, ◌||◌, not, Option, none, some, List, [], ◌∷◌, ◌++◌, ltb,
  if◌then◌else◌,
}
use yafe.Text.{Text, codes, text_eq, trim_space, has_suffix}
use yafe.Result.{
  Error, Result, ok, err, is_ok, os_is_not_exist, flow_not_found, job_not_found, malformed, wrapped,
}
use yafe.Disk.{
  FilePath, Disk, Io, pure, raise, attempt, ◌>>=◌, ◌>>◌, lift, wrap, choose, is_missing, handle,
  match_option, read_file, stat, remove, read_dir, replace_file,
}
use yafe.Names.{validate_flow_name}
use yafe.Job.{
  Job, JobStatus, pending, running, done, failed, job_status_values, status_text, job_filename,
  json_suffix, filename_id, Codec,
}

pub record FileQueue (C : Type 0) : Type 0 where
  pub base_dir : Text
  pub codec : Codec Job C
  -- `CleanupConfig`, in nanoseconds
  pub done_retention : ℕ
  pub failed_retention : ℕ

abbrev pub started : ℕ → Job → Job
started now job = record job { started_at = some now }

abbrev pub ended : ℕ → ℕ → Job → Job
ended now exit_code job = record job { ended_at = some now; exit_code = some exit_code }

module _ {C : Type 0} (q : FileQueue C) where
  abbrev pub status_dir : JobStatus → Text
  status_dir status = q.base_dir ++ (b'/' ∷ status_text status)

  abbrev pub job_path : JobStatus → Text → FilePath
  job_path status filename = record { dir = status_dir status; name = filename }

  -- `LogFile`
  abbrev pub log_file : Text → FilePath
  log_file id = record { dir = q.base_dir ++ codes "/logs"; name = id ++ codes ".log" }

  unfoldable pub write_job : JobStatus → Job → Io C (Unit {0})
  write_job status job =
      wrap (replace_file (job_path status (job_filename job)) (q.codec.encode job))

  unfoldable pub read_job : JobStatus → Text → Io C Job
  unfolding read_file
  read_job status filename = do
    contents ← wrap (read_file (job_path status filename))
    match_option (q.codec.decode contents) (raise (wrapped malformed)) pure

  -- The job is written in its new place first; an error of the removal is only logged.
  unfoldable pub move_job : JobStatus → JobStatus → Text → Job → Io C (Unit {0})
  unfolding remove
  move_job from_status to_status filename job = do
    wrap (replace_file (job_path to_status filename) (q.codec.encode job))
    attempt (remove (job_path from_status filename))
    pure tt

  -- `exists` is `Exists` of the flow registry that the queue was made with.
  unfoldable pub enqueue :
      (Text → Bool) → (now : ℕ) → (id : Text) → Text → List (Text × Text) → Io C Job
  unfolding write_job
  enqueue exists now id flow_name inputs = do
    lift (validate_flow_name (trim_space flow_name))
    choose (exists (trim_space flow_name))
        (let job : Job = record {
          id = id;
          flow = trim_space flow_name;
          inputs = inputs;
          created_at = now;
          started_at = none;
          ended_at = none;
          error = [];
          exit_code = none;
        } in
          do write_job pending job; pure job)
        (raise (wrapped flow_not_found))

  start_job : ℕ → Text → Io C (Option Job)
  unfolding read_job
  start_job now filename = do
    job ← read_job pending filename
    move_job pending running filename (started now job)
    pure (some (started now job))

  -- What is left to do under the lock. The second look is for a worker that has claimed the job and
  -- let go of the lock in between.
  unfoldable pub claim_locked : ℕ → Text → Io C (Option Job)
  unfolding stat start_job
  claim_locked now filename = do
    found ← attempt (stat (job_path pending filename))
    choose (is_missing found) (pure none) (start_job now filename)

  -- `held` tells of each file whether another worker holds its lock. Opening the file asks for what
  -- `stat` asks for.
  unfoldable pub try_claim_job : (Text → Bool) → ℕ → Text → Io C (Option Job)
  unfolding stat claim_locked
  try_claim_job held now filename = do
    opened ← attempt (stat (job_path pending filename))
    handle opened (λ _. choose (held filename) (pure none) (claim_locked now filename))
        (λ e. choose (os_is_not_exist e) (pure none) (raise (wrapped e)))

  -- The loop of `Dequeue`.
  unfoldable pub claim_first : (Text → Bool) → ℕ → List Text → Io C (Option Job)
  claim_first held now [] = pure none
  claim_first held now (filename ∷ filenames) =
      let rest = claim_first held now filenames in
      choose (has_suffix filename json_suffix)
        (do
          claimed ← try_claim_job held now filename
          match_option claimed rest (λ job. pure (some job)))
        rest

  -- `os.ReadDir` has sorted the entries by name already, so the second sort changes nothing.
  unfoldable pub dequeue : (Text → Bool) → ℕ → Io C (Option Job)
  unfolding read_dir
  dequeue held now = do
    filenames ← wrap (read_dir (status_dir pending))
    claim_first held now filenames

  unfoldable pub mark_done : ℕ → Job → ℕ → Io C (Unit {0})
  mark_done now job exit_code = move_job running done (job_filename job) (ended now exit_code job)

  unfoldable pub mark_failed : ℕ → Job → ℕ → Text → Io C (Unit {0})
  mark_failed now job exit_code message =
      move_job running failed (job_filename job)
        (record (ended now exit_code job) { error = message })
