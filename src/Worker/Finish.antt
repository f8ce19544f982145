-- ===== src/Worker/Finish.antt =====
-- A job that the worker takes ends as done or as failed.
use yafe.Prelude.{ℕ, ◌≡◌, ◌≢◌, inl, inr, refl, ap, ◌∙◌, true, none, some, List, [], arith}
use yafe.Text.{Text}
use yafe.Result.{Result, ok}
use yafe.Disk.{FilePath, Disk, working, find, put, at}
use yafe.Disk.Laws.{disk-working, find-put, path_eq_iff}
use yafe.Job.{Job, JobStatus, pending, running, done, failed, job_filename}
use yafe.Job.Filename.{has_suffix-job_filename}
use yafe.Queue.{job_path, log_file, started, ended, move_job, mark_done, mark_failed}
use yafe.Queue.Paths.{statuses_differ, log_file-ne-job_path}
use yafe.Queue.Move.{move_job_works, move_job_atomic}
use yafe.Queue.Claim.{claimable, pending_names}
use yafe.Queue.Dequeue.{dequeue_claims}
use yafe.Worker.{Worker, process_job, process_next}

job_filename-started : (start : ℕ) (job : Job) → job_filename (started start job) ≡ job_filename job
unfolding job_filename
job_filename-started start job = refl

module _ {C F : Type 0} (w : Worker C F) (finish : ℕ) where
  -- Where a job ends, and what is then stored of it.
  abbrev pub verdict : Job → JobStatus × Job
  verdict job = elim (w.engine.load job.flow) [
    | inl message ↦ (failed, record (ended finish 1 job) { error = message })
    | inr flow ↦ elim (w.engine.run flow job.inputs).0 [
      | none ↦ (done, ended finish 0 job)
      | some message ↦ (failed, record (ended finish 1 job) { error = message })
    ]
  ]

  -- The job has left `running`, and is stored in its last place.
  abbrev Ended : JobStatus → Job → Text → Result (Unit {0}) × Disk C → Type 0
  Ended status job filename outcome =
      (outcome.0 ≡ ok tt)
      × (outcome.1.outcomes ≡ [])
      × (at outcome.1 (job_path w.queue running filename) ≡ none)
      × (at outcome.1 (job_path w.queue status filename) ≡ some (w.queue.codec.encode job))

  module _ (job : Job) (disk : Disk C) (works : disk.outcomes ≡ []) where
    moved :
        (status : JobStatus) (last : Job)
        → running ≢ status
        → Ended status last
            (job_filename job)
            (move_job w.queue running status (job_filename job) last disk)
    moved status last differ =
        let json = has_suffix-job_filename job in
        let m =
          move_job_works w.queue running status (job_filename job) last disk differ json works in
        let a = move_job_atomic w.queue running status (job_filename job) last disk differ json in
        (m.0, m.1, m.2, a.0 m.0)

  module _ (job : Job) (disk : Disk C) (works : disk.outcomes ≡ []) where
    -- The disk on which the job is moved: if its flow was loaded, the log file is there.
    unfoldable pub moved_on : Disk C
    moved_on = elim (w.engine.load job.flow) [
      | inl message ↦ disk
      | inr flow ↦ working (
          put (log_file w.queue job.id) (w.engine.run flow job.inputs).1
            (put (log_file w.queue job.id) w.empty_file disk.files))
    ]

    pub moved_on-works : moved_on.outcomes ≡ []
    unfolding moved_on
    moved_on-works = ground arith

    pub running-ne-verdict : running ≢ (verdict job).0
    running-ne-verdict e = ground arith

    pub pending-ne-verdict : pending ≢ (verdict job).0
    pending-ne-verdict e = ground arith

    moved_on-job_path :
        (status : JobStatus) (name : Text)
        → at moved_on (job_path w.queue status name) ≡ at disk (job_path w.queue status name)
    unfolding moved_on
    moved_on-job_path status name =
        grind (arith, find-put, path_eq_iff, log_file-ne-job_path w.queue status name job.id)

    pub process_job-move :
        process_job w finish job disk
        ≡ move_job w.queue running (verdict job).0 (job_filename job) (verdict job).1 moved_on
    unfolding process_job mark_done mark_failed moved_on
    process_job-move = rw (disk-working disk works) (ground arith)

    process_job_ends :
        Ended (verdict job).0 (verdict job).1 (job_filename job) (process_job w finish job disk)
    process_job_ends =
        rw process_job-move
          (moved job moved_on moved_on-works (verdict job).0 (verdict job).1 running-ne-verdict)

  process_job-pending :
      (job : Job) (disk : Disk C)
      → disk.outcomes ≡ []
      → at (process_job w finish job disk).1 (job_path w.queue pending (job_filename job))
        ≡ at disk (job_path w.queue pending (job_filename job))
  process_job-pending job disk works =
      let name = job_filename job in
      let path = job_path w.queue pending name in
      let (status, last) = verdict job in
      let atomic =
        move_job_atomic w.queue running status name last (moved_on job disk works)
          (running-ne-verdict job disk works) (has_suffix-job_filename job) in
      ap (λ (r : Result (Unit {0}) × Disk C). at r.1 path) (process_job-move job disk works)
      ∙ atomic.2 pending name (has_suffix-job_filename job)
          (statuses_differ w.queue pending running name name (λ e. cc))
          (statuses_differ w.queue pending status name name (pending-ne-verdict job disk works))
      ∙ moved_on-job_path job disk works pending name

  -- On a disk where every call works, if the first free pending job file is named for the job that
  -- it holds, the worker runs that job's flow and stores the job as `done` with exit code 0 if the
  -- flow loads and runs without an error, and otherwise as `failed` with exit code 1 and the
  -- message; it is then neither pending nor running.
  pub process_next_ends :
      (start : ℕ) (files : List (FilePath × C)) (c : C) (job : Job)
      → claimable w.held (pending_names w.queue files) ≡ some (job_filename job)
      → find (job_path w.queue pending (job_filename job)) files ≡ some c
      → w.queue.codec.decode c ≡ some job
      → let (result, after) = process_next w start finish (working files) in
        let (status, last) = verdict (started start job) in
        (result ≡ ok true)
        × (at after (job_path w.queue pending (job_filename job)) ≡ none)
        × (at after (job_path w.queue running (job_filename job)) ≡ none)
        × (at after (job_path w.queue status (job_filename job)) ≡ some (w.queue.codec.encode last))
  unfolding process_next
  process_next_ends start files c job h k d =
      let name = job_filename job in
      let claimed = started start job in
      let json = has_suffix-job_filename job in
      let moved_there =
        move_job_works w.queue pending running name claimed (working files) (λ e. cc) json refl in
      let next = (move_job w.queue pending running name claimed (working files)).1 in
      let ends = process_job_ends claimed next moved_there.1 in
      let kept = process_job-pending claimed next moved_there.1 in
      let claims = dequeue_claims w.queue w.held start files name c job h k d in
      ground (arith, job_filename-started start job)
