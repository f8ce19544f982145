-- ===== src/Server/Jobs/Stored.antt =====
-- The handlers of jobs over the queue of internal/queue/queue.go.
use yafe.Prelude.{ℕ, ◌≡◌, Bool, some, [], arith, if◌then◌else◌, not}
use yafe.Text.{Text, trim_space, is_empty}
use yafe.Result.{Error, is_ok}
use yafe.Exec.{◌>>=◌, pure}
use yafe.Disk.{Disk, at}
use yafe.Names.{validate_flow_name}
use yafe.Job.{pending, job_filename}
use yafe.Queue.{FileQueue, job_path, enqueue}
use yafe.Queue.Find.{list_jobs, get_job, get_job_logs, delete_job}
use yafe.Queue.Enqueue.{new_job, enqueue_works, enqueue_atomic}
use yafe.Server.{job_id_body, errors_is}
use yafe.Server.Jobs.{JobService, EnqueueRequest, handle_enqueue}

-- The queue at one instant, with the id that it draws; `text` reads a log file as text.
abbrev pub queue_jobs :
    {C : Type 0} → FileQueue C → (C → Text) → (Text → Bool) → ℕ → Text → JobService (Disk C)
queue_jobs q text exists now id = record {
  enqueue = enqueue q exists now id;
  list_jobs = list_jobs q;
  get_job = get_job q;
  get_job_logs = λ job_id. get_job_logs q job_id >>= λ contents. pure (text contents);
  delete_job = delete_job q;
}

module _ {C : Type 0} (q : FileQueue C) (text : C → Text) (exists : Text → Bool) (now : ℕ)
    (id : Text) (error_text : Error → Text) (req : EnqueueRequest) (disk : Disk C) where
  -- The code of the answer to a request to run a flow.
  abbrev pub enqueue_code : ℕ
  enqueue_code =
      if is_empty req.flow
      then 400
      else if not (is_ok (validate_flow_name (trim_space req.flow)))
      then 500
      else if exists (trim_space req.flow)
      then 202
      else 404

  -- On a disk where every call works, a request to run a flow is answered with 400 if it names none,
  -- with 500 if the name is invalid, with 404 if there is no such flow, and else with 202; after 202
  -- the new job is pending.
  pub enqueue_answers :
      disk.outcomes ≡ []
      → let (answered, after) =
          handle_enqueue error_text (queue_jobs q text exists now id) (some req) disk in
        let job = new_job now id req.flow req.inputs in
        (answered.code ≡ enqueue_code)
        × (answered.code ≡ 202
            → (answered.body ≡ job_id_body id)
              × (at after (job_path q pending (job_filename job)) ≡ some (q.codec.encode job)))
  unfolding handle_enqueue errors_is validate_flow_name
  enqueue_answers w =
      let job = new_job now id req.flow req.inputs in
      let result = enqueue_works q exists now id req.flow req.inputs disk w in
      let stored = (enqueue_atomic q exists now id req.flow req.inputs disk).0 job in
      (ground (arith, result), λ h. ground (arith, result, stored, h))
