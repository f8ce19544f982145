-- ===== src/Client/Served/Jobs.antt =====
-- The methods of the client for jobs, against the handlers of the server.
use yafe.Prelude.{ℕ, false, ◌==◌, ◌≡◌, refl, ap, ◌⊎◌, inl, inr, List, [], ◌∷◌, arith}
use yafe.Text.{Text, codes, is_empty, text_eq}
use yafe.Result.{Result-cases, job_not_found, flow_not_found}
use yafe.Job.{Job, JobStatus, job_status_values}
use yafe.Http.{get, post, delete, header}
use yafe.Server.{
  Answer, answer, write_error, respond, errors_is, no_body, job_body, logs_body, job_id_body,
  jobs_body,
}
use yafe.Server.Jobs.{
  handle_enqueue, handle_list_jobs, handle_get_job, handle_get_job_logs, handle_dequeue,
  is_unfinished, collect_jobs, parse_statuses, sort_newest,
}
use yafe.Server.Routes.{Route}
use yafe.Server.Serve.{ServerLibrary, Server, route_pattern, route_handler}
use yafe.Client.{HttpLibrary, Client, json_header}
use yafe.Client.Call
use yafe.Client.Served.{
  list_jobs, get_job, get_job_logs, delete_job, enqueue_job, text_value, jobs_value, job_value,
  nothing, Agree, IsPerformed, handler_for,
}
use yafe.Client.Served.Answers.{by_test, by_guard, by_result, exchange_settles}

module _ {S D : Type 0} (http : HttpLibrary D) (lib : ServerLibrary D) (server : Server S)
    (c : Client) (agree : Agree http lib) (url : Text) (s : S) where
  pub get_job-IsPerformed : (id : Text) → IsPerformed http lib server c url s (get_job id)
  unfolding route_pattern route_handler header handle_get_job Call.get_job
  get_job-IsPerformed id e (made, routed) = rw (← e) (
      exchange_settles http lib server c agree job_value 200 _ get url [] http.no_body Route.get_job
        id (handler_for server (get_job id)) s made routed refl refl refl refl
        (λ P wrong right. by_guard P (is_empty id) s _ (wrong 400 _ refl) (
          by_result P (server.jobs.get_job id s).0
            (λ job. right (job_body job) (rw (agree.got_job job) refl))
            (λ e. by_test P (errors_is e job_not_found) (wrong 404 _ refl) (wrong 500 _ refl)))))

  pub get_job_logs-IsPerformed : (id : Text) → IsPerformed http lib server c url s (get_job_logs id)
  unfolding route_pattern route_handler header handle_get_job_logs Call.get_job_logs
  get_job_logs-IsPerformed id e (made, routed) = rw (← e) (
      exchange_settles http lib server c agree text_value 200 _ get url [] http.no_body
        Route.get_job_logs id (handler_for server (get_job_logs id)) s made routed refl refl refl
        refl
        (λ P wrong right.
          by_guard P (is_empty id) s _ (wrong 400 _ refl)
            (elim (Result-cases (server.jobs.get_job id s).0) [
              | inl ((job, status), found) ↦ rw found (
                  by_guard P (is_unfinished status) _ _ (wrong 425 _ refl) (
                    by_result P (server.jobs.get_job_logs id (server.jobs.get_job id s).1).0
                      (λ logs. right (logs_body logs) (ground (arith, agree.got_logs logs)))
                      (λ e.
                        by_test P (errors_is e job_not_found) (wrong 404 _ refl)
                          (wrong 500 _ refl))))
              | inr (e, failed) ↦
                  rw failed
                    (by_test P (errors_is e job_not_found) (wrong 404 _ refl) (wrong 500 _ refl))
            ])))

  pub delete_job-IsPerformed : (id : Text) → IsPerformed http lib server c url s (delete_job id)
  unfolding route_pattern route_handler header handle_dequeue Call.delete_job
  delete_job-IsPerformed id e (made, routed) = rw (← e) (
      exchange_settles http lib server c agree (λ _. nothing) 204 _ delete url [] http.no_body
        Route.delete_job id (handler_for server (delete_job id)) s made routed refl refl refl refl
        (λ P wrong right. by_guard P (is_empty id) s _ (wrong 400 _ refl) (
          by_result P (server.jobs.delete_job id s).0 (λ _. right no_body refl)
            (λ e. by_test P (errors_is e job_not_found) (wrong 404 _ refl) (wrong 500 _ refl)))))

  pub enqueue_job-IsPerformed :
      (flow : Text) (inputs : List (Text × Text))
      → IsPerformed http lib server c url s (enqueue_job flow inputs)
  unfolding route_pattern route_handler header text_eq handle_enqueue Call.enqueue_job
  enqueue_job-IsPerformed flow inputs e (made, routed) =
      let (body, sent, decoded) = agree.sent_enqueue flow inputs in
      rw (sent, ← e)
        (exchange_settles http lib server c agree text_value 202 _ post url json_header body
          Route.post_jobs [] (handler_for server (enqueue_job flow inputs)) s made routed refl
          (ap (λ req. λ _. handle_enqueue server.error_text server.jobs req) decoded) refl refl
          (λ P wrong right. by_guard P (is_empty flow) s _ (wrong 400 _ refl) (
            by_result P (server.jobs.enqueue flow inputs s).0
              (λ job. right (job_id_body job.id) (rw (agree.got_job_id job.id) refl))
              (λ e. by_test P (errors_is e flow_not_found) (wrong 404 _ refl) (wrong 500 _ refl)))))

  -- The answers to a request for jobs.
  module _ (P : Answer → Type 0)
      (wrong : (code : ℕ) (message : Text) → (code == 200) ≡ false → P (write_error code message))
      (right : (jobs : List (Job × JobStatus)) → P (answer 200 (jobs_body jobs))) where
    collected :
        (statuses : Text ⊎ List JobStatus)
        → P
            (elim statuses as (λ _. Answer × S) [
              | inl e ↦ (write_error 400 e, s)
              | inr wanted ↦
                  respond
                    (collect_jobs server.error_text server.jobs wanted)
                    (λ found. answer 200 (jobs_body (sort_newest found)))
                    (λ e. write_error 500 (codes "failed to list jobs"))
                    s
            ]).0
    collected (inl e) = wrong 400 e refl
    collected (inr wanted) =
        by_result P (collect_jobs server.error_text server.jobs wanted s).0
          (λ jobs. right (sort_newest jobs)) (λ e. wrong 500 _ refl)

    listed :
        (statuses : List Text) → P (handle_list_jobs server.error_text server.jobs statuses s).0
    unfolding handle_list_jobs
    listed [] = collected (inr job_status_values)
    listed (param ∷ params) = collected (parse_statuses (param ∷ params))

  pub list_jobs-IsPerformed :
      (statuses : List Text) → IsPerformed http lib server c url s (list_jobs statuses)
  unfolding route_pattern route_handler header Call.list_jobs
  list_jobs-IsPerformed statuses (e, asked) (made, routed) = rw e (
      exchange_settles http lib server c agree jobs_value 200 _ get url [] http.no_body
        Route.get_jobs [] (handler_for server (list_jobs statuses)) s made routed refl
        (ap (λ params. λ _. handle_list_jobs server.error_text server.jobs params) asked) refl refl
        (λ P wrong right.
          listed P wrong (λ jobs. right (jobs_body jobs) (rw (agree.got_jobs jobs) refl)) statuses))
