-- ===== src/Queue/Find.antt =====
-- `ListJobs`, `GetJob`, `DeleteJob` and `GetJobLogs` of internal/queue/queue.go.
pub mod Named
pub mod Located
use yafe.Prelude.{ℕ, Bool, true, false, Option, none, some, List, [], ◌∷◌, ltb, if◌then◌else◌}
use yafe.Text.{Text, text_eq, has_suffix}
use yafe.Result.{Error, Result, ok, err, os_is_not_exist, job_not_found, wrapped}
use yafe.Disk.{
  Io, pure, raise, attempt, ◌>>=◌, ◌>>◌, lift, wrap, choose, handle, match_option, read_file,
  remove, read_dir,
}
use yafe.Job.{Job, JobStatus, job_status_values, json_suffix, filename_id}
use yafe.Queue.{FileQueue, status_dir, job_path, log_file, read_job}

-- Puts a job behind those that were created no later.
insert_job : Job → List Job → List Job
insert_job job [] = job ∷ []
insert_job job (j ∷ jobs) =
    if ltb job.created_at j.created_at then job ∷ j ∷ jobs else j ∷ insert_job job jobs

-- `sort.Slice` by the instant of creation; it leaves open how it orders jobs of one instant.
unfoldable pub sort_jobs : List Job → List Job
unfolding insert_job
sort_jobs [] = []
sort_jobs (job ∷ jobs) = insert_job job (sort_jobs jobs)

-- Whether `GetJob` and `DeleteJob` take a file for the job's.
unfoldable pub names_job : Text → Text → Bool
names_job job_id filename = elim (filename_id filename) [
  | none ↦ false
  | some id ↦ text_eq id job_id
]

-- The first file in a list that is the job's.
unfoldable pub file_of : Text → List Text → Option Text
file_of job_id [] = none
file_of job_id (filename ∷ filenames) =
    if names_job job_id filename then some filename else file_of job_id filenames

module _ {C : Type 0} (q : FileQueue C) where
  -- The loop of `ListJobs`, which passes over malformed jobs.
  read_jobs : JobStatus → List Text → Io C (List Job)
  unfolding read_job
  read_jobs status [] = pure []
  read_jobs status (filename ∷ filenames) =
      let rest = read_jobs status filenames in
      choose (has_suffix filename json_suffix)
        (do
          job ← attempt (read_job q status filename)
          jobs ← rest
          handle job (λ j. pure (j ∷ jobs)) (λ e. pure jobs))
        rest

  unfoldable pub list_jobs : JobStatus → Io C (List Job)
  unfolding read_dir read_jobs
  list_jobs status = do
    entries ← attempt (read_dir (status_dir q status))
    handle entries (λ filenames. do jobs ← read_jobs status filenames; pure (sort_jobs jobs))
        (λ e. choose (os_is_not_exist e) (pure []) (raise (wrapped e)))

  -- The inner loop of `GetJob`. `readJob` wraps its error, so `os.IsNotExist` never holds of it.
  find_among : Text → JobStatus → List Text → Io C (Option Job)
  unfolding read_job
  find_among job_id status [] = pure none
  find_among job_id status (filename ∷ filenames) =
      let rest = find_among job_id status filenames in
      choose (names_job job_id filename)
        (do
          job ← attempt (read_job q status filename)
          handle job (λ j. pure (some j)) (λ e. choose (os_is_not_exist e) rest (raise e)))
        rest

  find_in : Text → List JobStatus → Io C (Job × JobStatus)
  unfolding read_dir find_among
  find_in job_id [] = raise job_not_found
  find_in job_id (status ∷ statuses) =
      let rest = find_in job_id statuses in
      do
        entries ← attempt (read_dir (status_dir q status))
        handle entries
            (λ filenames. do
              found ← find_among job_id status filenames
              match_option found rest (λ job. pure (job, status)))
            (λ e. rest)

  unfoldable pub get_job : Text → Io C (Job × JobStatus)
  unfolding find_in
  get_job job_id = find_in job_id job_status_values

  delete_in : Text → List JobStatus → Io C (Unit {0})
  unfolding read_dir remove file_of
  delete_in job_id [] = raise job_not_found
  delete_in job_id (status ∷ statuses) =
      let rest = delete_in job_id statuses in
      do
        entries ← attempt (read_dir (status_dir q status))
        handle entries
            (λ filenames. match_option (file_of job_id filenames) rest (λ filename. do
              wrap (remove (job_path q status filename))
              attempt (remove (log_file q job_id))
              pure tt))
            (λ e. rest)

  -- An error of the removal of the log is only logged.
  unfoldable pub delete_job : Text → Io C (Unit {0})
  unfolding delete_in
  delete_job job_id = delete_in job_id job_status_values

  unfoldable pub get_job_logs : Text → Io C C
  unfolding read_file
  get_job_logs job_id = do
    contents ← attempt (read_file (log_file q job_id))
    lift (elim contents [
      | ok c ↦ ok c
      | err e ↦ if os_is_not_exist e then err job_not_found else err (wrapped e)
    ])
