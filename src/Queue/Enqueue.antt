-- ===== src/Queue/Enqueue.antt =====
-- `Enqueue`: what it accepts, and what it stores.
use yafe.Prelude.{ℕ, ◌≡◌, ◌≢◌, Bool, true, none, some, List, [], arith, if◌then◌else◌}
use yafe.Text.{Text, trim_space, has_suffix}
use yafe.Result.{Error, ok, err, wrapped, flow_not_found, ◌>>=◌}
use yafe.Disk.{Disk, at}
use yafe.Disk.Atomic.{replace_file_ok, replace_file_err, replace_file_other, replace_file_works}
use yafe.Names.{validate_flow_name}
use yafe.Job.{Job, JobStatus, pending, job_filename, json_suffix}
use yafe.Queue.{FileQueue, job_path, enqueue}
use yafe.Queue.Paths.{job_path-ne-temporary}

-- The job that `Enqueue` makes.
abbrev pub new_job : ℕ → Text → Text → List (Text × Text) → Job
new_job now id flow_name inputs = record {
  id = id;
  flow = trim_space flow_name;
  inputs = inputs;
  created_at = now;
  started_at = none;
  ended_at = none;
  error = [];
  exit_code = none;
}

module _ {C : Type 0} (q : FileQueue C) (exists : Text → Bool) (now : ℕ) (id flow_name : Text)
    (inputs : List (Text × Text)) (disk : Disk C) where
  enqueue_kept :
      (status : JobStatus) (filename : Text)
      → has_suffix filename json_suffix ≡ true
      → job_path q status filename
        ≢ job_path q pending (job_filename (new_job now id flow_name inputs))
      → at (enqueue q exists now id flow_name inputs disk).1 (job_path q status filename)
        ≡ at disk (job_path q status filename)
  unfolding enqueue
  enqueue_kept status filename json h = grind (
    arith,
    replace_file_other,
    job_path-ne-temporary q status pending filename (job_filename (new_job now id flow_name inputs))
        json,
  )

  enqueue_refused :
      (e : Error)
      → (enqueue q exists now id flow_name inputs disk).0 ≡ err e
      → at
          (enqueue q exists now id flow_name inputs disk).1
          (job_path q pending (job_filename (new_job now id flow_name inputs)))
        ≡ at disk (job_path q pending (job_filename (new_job now id flow_name inputs)))
  unfolding enqueue
  enqueue_refused e h = grind (arith, replace_file_err)

  enqueue_ok :
      (job : Job)
      → (enqueue q exists now id flow_name inputs disk).0 ≡ ok job
      → (job ≡ new_job now id flow_name inputs)
        × (validate_flow_name (trim_space flow_name) ≡ ok tt)
        × (exists (trim_space flow_name) ≡ true)
        × (at
              (enqueue q exists now id flow_name inputs disk).1
              (job_path q pending (job_filename job))
            ≡ some (q.codec.encode job))
  unfolding enqueue
  enqueue_ok job h = grind (arith, replace_file_ok)

  -- Whatever calls fail: a job that `Enqueue` returns is for a valid, trimmed, existing flow, has
  -- not started, and is stored whole among the pending jobs; after an error no job is added; and
  -- every other job file is as it was.
  pub enqueue_atomic :
      let (result, after) = enqueue q exists now id flow_name inputs disk in
      let path = job_path q pending (job_filename (new_job now id flow_name inputs)) in
      ((job : Job)
        → result ≡ ok job
        → (job ≡ new_job now id flow_name inputs)
          × (validate_flow_name (trim_space flow_name) ≡ ok tt)
          × (exists (trim_space flow_name) ≡ true)
          × (at after (job_path q pending (job_filename job)) ≡ some (q.codec.encode job)))
      × ((e : Error) → result ≡ err e → at after path ≡ at disk path)
      × ((status : JobStatus) (filename : Text)
          → has_suffix filename json_suffix ≡ true
          → job_path q status filename ≢ path
          → at after (job_path q status filename) ≡ at disk (job_path q status filename))
  enqueue_atomic = (enqueue_ok, enqueue_refused, enqueue_kept)

  -- On a disk where every call works `Enqueue` refuses only an invalid name and an unknown flow.
  pub enqueue_works :
      disk.outcomes ≡ []
      → (enqueue q exists now id flow_name inputs disk).0 ≡ (
          validate_flow_name (trim_space flow_name) >>= λ _.
          if exists (trim_space flow_name)
          then ok (new_job now id flow_name inputs)
          else err (wrapped flow_not_found))
  unfolding enqueue
  enqueue_works w = grind (arith, replace_file_works)

  pub enqueue-outcomes :
      disk.outcomes ≡ [] → (enqueue q exists now id flow_name inputs disk).1.outcomes ≡ []
  unfolding enqueue
  enqueue-outcomes w = grind (arith, replace_file_works)
