-- ===== src/Server/Jobs.antt =====
-- The handlers of jobs.
pub mod Stored
use yafe.Prelude.{
  Bool, true, false, ◌⊎◌, inl, inr, Option, none, some, List, [], ◌∷◌, ◌++◌, map, ltb,
  if◌then◌else◌,
}
use yafe.Text.{Text, codes, is_empty}
use yafe.Result.{Error, ok, err, flow_not_found, job_not_found}
use yafe.Exec.{Exec, pure, ◌>>=◌}
use yafe.Job.{Job, JobStatus, pending, running, done, failed, job_status_values, parse_job_status}
use yafe.Server.{
  Handling, answer, write_error, respond, reply, if_empty, errors_is, no_body, job_id_body,
  jobs_body, job_body, logs_body,
}

-- `EnqueueRequest`
pub record EnqueueRequest : Type 0 where
  pub flow : Text
  pub inputs : List (Text × Text)

-- The operations of `queue.Queue` that the handlers call.
pub record JobService (S : Type 0) : Type 0 where
  pub enqueue : Text → List (Text × Text) → Exec S Job
  pub list_jobs : JobStatus → Exec S (List Job)
  pub get_job : Text → Exec S (Job × JobStatus)
  pub get_job_logs : Text → Exec S Text
  pub delete_job : Text → Exec S (Unit {0})

-- The error of `ParseJobStatus`
abbrev pub bad_status : Text → Text
bad_status param = param ++ codes " is not a valid JobStatus, try [pending, running, done, failed]"

-- The statuses that the parameters name, or the error of the first that names none.
pub parse_statuses : List Text → Text ⊎ List JobStatus
parse_statuses [] = inr []
parse_statuses (param ∷ params) = elim (parse_job_status param) [
  | none ↦ inl (bad_status param)
  | some status ↦ elim (parse_statuses params) [
    | inl e ↦ inl e
    | inr statuses ↦ inr (status ∷ statuses)
  ]
]

-- The newest job first.
insert_newest : Job × JobStatus → List (Job × JobStatus) → List (Job × JobStatus)
insert_newest job [] = job ∷ []
insert_newest job (j ∷ jobs) =
    if ltb j.0.created_at job.0.created_at then job ∷ j ∷ jobs else j ∷ insert_newest job jobs

unfoldable pub sort_newest : List (Job × JobStatus) → List (Job × JobStatus)
unfolding insert_newest
sort_newest [] = []
sort_newest (job ∷ jobs) = insert_newest job (sort_newest jobs)

-- A job is not asked for its log before it has ended.
abbrev pub is_unfinished : JobStatus → Bool
is_unfinished pending = true
is_unfinished running = true
is_unfinished done = false
is_unfinished failed = false

module _ {S : Type 0} (error_text : Error → Text) (jobs : JobService S) where
  unfoldable pub handle_enqueue : Option EnqueueRequest → Handling S
  handle_enqueue none = reply (write_error 400 (codes "invalid request body"))
  handle_enqueue (some req) =
      if_empty (is_empty req.flow) (write_error 400 (codes "flow is required")) (
        respond (jobs.enqueue req.flow req.inputs) (λ job. answer 202 (job_id_body job.id))
          (λ e.
            if errors_is e flow_not_found
            then write_error 404 (error_text e)
            else write_error 500 (codes "failed to enqueue job")))

  pub collect_jobs : List JobStatus → Exec S (List (Job × JobStatus))
  collect_jobs [] = pure []
  collect_jobs (status ∷ statuses) =
      let rest = collect_jobs statuses in
      do found ← jobs.list_jobs status; more ← rest; pure (map (λ job. (job, status)) found ++ more)

  -- `params` are the values of `status` in the query.
  unfoldable pub handle_list_jobs : List Text → Handling S
  unfolding parse_statuses collect_jobs
  handle_list_jobs params s =
      let statuses : Text ⊎ List JobStatus = elim params [
        | [] ↦ inr job_status_values
        | param ∷ rest ↦ parse_statuses (param ∷ rest)
      ] in
      elim statuses [
        | inl e ↦ (write_error 400 e, s)
        | inr wanted ↦
            respond (collect_jobs wanted) (λ found. answer 200 (jobs_body (sort_newest found)))
              (λ e. write_error 500 (codes "failed to list jobs")) s
      ]

  unfoldable pub handle_get_job : Text → Handling S
  handle_get_job job_id =
      if_empty (is_empty job_id) (write_error 400 (codes "job id is required")) (
        respond (jobs.get_job job_id) (λ found. answer 200 (job_body found))
          (λ e.
            if errors_is e job_not_found
            then write_error 404 (codes "job not found")
            else write_error 500 (codes "failed to get job")))

  abbrev logs_answer : Text → Handling S
  logs_answer job_id =
      respond (jobs.get_job_logs job_id) (λ logs. answer 200 (logs_body logs))
        (λ e.
          if errors_is e job_not_found
          then write_error 404 (codes "job logs not found")
          else write_error 500 (codes "failed to get job logs"))

  unfoldable pub handle_get_job_logs : Text → Handling S
  handle_get_job_logs job_id =
      if_empty (is_empty job_id) (write_error 400 (codes "job id is required")) λ s.
        let (found, after) = jobs.get_job job_id s in
        elim found [
          | ok (job, status) ↦
              if is_unfinished status
              then (write_error 425 (codes "job logs not yet available"), after)
              else logs_answer job_id after
          | err e ↦ (
            if errors_is e job_not_found
                then write_error 404 (codes "job not found")
                else write_error 500 (codes "failed to get job"),
            after,
          )
        ]

  unfoldable pub handle_dequeue : Text → Handling S
  handle_dequeue job_id =
      if_empty (is_empty job_id) (write_error 400 (codes "job id is required")) (
        respond (jobs.delete_job job_id) (λ _. answer 204 no_body)
          (λ e.
            if errors_is e job_not_found
            then write_error 404 (codes "job not found")
            else write_error 500 (codes "failed to delete job")))
