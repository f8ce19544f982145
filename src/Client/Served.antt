-- ===== src/Client/Served.antt =====
-- The client of internal/client/client.go against the server of internal/server/server.go.
pub mod Calls
pub mod Answers
pub mod Jobs
pub mod Flows
pub mod Schedules
pub mod Performed
pub use Calls.*
use yafe.Prelude.{
  ℕ, ◌≡◌, refl, Bool, true, false, Option, none, some, List, [], ◌∷◌, ◌++◌, map, ◌==◌,
  if◌then◌else◌,
}
use yafe.Text.{Text, codes, is_empty}
use yafe.Result.{Error, ok, err}
use yafe.Exec.{Exec}
use yafe.Job.{Job, JobStatus, status_text}
use yafe.Scheduler.Cycle.{ScheduleWithNextRun}
use yafe.Http.{Method, HttpRequest, HttpResponse}
use yafe.Server.{
  Answer, Body, Handling, no_body, error_body, job_id_body, jobs_body, job_body, logs_body,
  flows_body, flow_body, schedules_body, schedule_body, profile_body,
}
use yafe.Server.Jobs.{
  EnqueueRequest, handle_enqueue, handle_list_jobs, handle_get_job, handle_get_job_logs,
  handle_dequeue,
}
use yafe.Server.Flows.{
  handle_list_flows, handle_get_flow, handle_add_flow, handle_delete_flow, handle_rename_flow,
}
use yafe.Server.Schedules.{
  ScheduleRequest, handle_list_schedules, handle_get_schedule, handle_create_schedule,
  handle_update_schedule, handle_delete_schedule, handle_enable_schedule, handle_disable_schedule,
}
use yafe.Server.Routes.{Route}
use yafe.Server.Serve.{
  ServerLibrary, Server, route_pattern, pattern_method, pattern_path, guarded, respond_to,
}
use yafe.Client.{
  HttpLibrary, Client, ClientJob, ClientSchedule, FlowResponse, enqueue_payload, content_payload,
  new_name_payload, create_payload, update_payload, Outcome, success, refused, server_error,
  unexpected_status, Fetch,
}
use yafe.Client.Call

-- encoding/json: what one side decodes is what the other has encoded.
pub record Agree {D : Type 0} (http : HttpLibrary D) (lib : ServerLibrary D) : Type 0 where
  pub sent_enqueue :
      (flow : Text) (inputs : List (Text × Text))
      → (d : D) × (http.marshal (enqueue_payload flow inputs) ≡ ok d)
        × (lib.decode_enqueue d ≡ some (record { flow = flow; inputs = inputs }))
  pub sent_content :
      (content : Text)
      → (d : D) × (http.marshal (content_payload content) ≡ ok d)
        × (lib.decode_content d ≡ some content)
  pub sent_new_name :
      (name : Text)
      → (d : D) × (http.marshal (new_name_payload name) ≡ ok d)
        × (lib.decode_new_name d ≡ some name)
  pub sent_create :
      (name : Text) (req : ScheduleRequest)
      → (d : D) × (http.marshal (create_payload name req) ≡ ok d)
        × (lib.decode_create d ≡ some (name, req))
  pub sent_update :
      (req : ScheduleRequest)
      → (d : D) × (http.marshal (update_payload req) ≡ ok d) × (lib.decode_update d ≡ some req)
  pub got_error :
      (message : Text) → http.decode_error (lib.encode (error_body message)) ≡ some message
  pub got_jobs :
      (jobs : List (Job × JobStatus))
      → http.decode_jobs (lib.encode (jobs_body jobs)) ≡ ok (map client_job jobs)
  pub got_job :
      (job : Job × JobStatus) → http.decode_job (lib.encode (job_body job)) ≡ ok (client_job job)
  pub got_job_id : (id : Text) → http.decode_job_id (lib.encode (job_id_body id)) ≡ ok id
  pub got_logs : (logs : Text) → http.read_all (lib.encode (logs_body logs)) ≡ (logs, none)
  pub got_flows : (names : List Text) → http.decode_flows (lib.encode (flows_body names)) ≡ ok names
  pub got_flow :
      (name content : Text)
      → http.decode_flow (lib.encode (flow_body name content))
        ≡ ok (record { name = name; content = content })
  pub got_schedules :
      (schedules : List ScheduleWithNextRun)
      → http.decode_schedules (lib.encode (schedules_body schedules))
        ≡ ok (map client_schedule schedules)
  pub got_schedule :
      (schedule : ScheduleWithNextRun)
      → http.decode_schedule (lib.encode (schedule_body schedule)) ≡ ok (client_schedule schedule)

module _ {D : Type 0} (http : HttpLibrary D) (lib : ServerLibrary D) where
  -- The URL of a call: that of its route's pattern, behind the base, and with the statuses in its query.
  abbrev pub UrlFor : Client → ClientCall → Text → Type 0
  UrlFor c (list_jobs statuses) url =
      (http.with_query (c.base_url ++ pattern_path (route_pattern Route.get_jobs) [])
          (map (λ status. (codes "status", status)) statuses)
        ≡ ok url)
      × (lib.query_statuses url ≡ statuses)
  UrlFor c call url =
      url
      ≡ c.base_url
        ++ pattern_path (route_pattern (route_for call)) (http.path_escape (value_for call))

  -- net/http makes a request of a URL, and `http.ServeMux` takes it to the route of its pattern.
  abbrev pub Reaches : ClientCall → Text → Type 0
  Reaches call url =
      (http.request_error (pattern_method (route_pattern (route_for call))) url ≡ none)
      × (lib.route_of (pattern_method (route_pattern (route_for call))) url
          ≡ some (route_for call, value_for call))

  -- What an answer of the server comes to: the value that it carries, or the error that it tells.
  abbrev pub value_of : Body → Value
  value_of (job_id_body id) = text_value id
  value_of (jobs_body jobs) = jobs_value (map client_job jobs)
  value_of (job_body job) = job_value (client_job job)
  value_of (logs_body logs) = text_value logs
  value_of (flows_body names) = flows_value names
  value_of (flow_body name content) = flow_value (record { name = name; content = content })
  value_of (schedules_body schedules) = schedules_value (map client_schedule schedules)
  value_of (schedule_body schedule) = schedule_value (client_schedule schedule)
  value_of _ = nothing

  abbrev pub report_body : ℕ → Body → Outcome Value
  report_body code (error_body message) =
      if is_empty message
      then refused (unexpected_status code (http.read_all (lib.encode (error_body message))).0)
      else refused (server_error message)
  report_body code body = success (value_of body)

  abbrev pub report : Answer → Outcome Value
  report a = report_body a.code a.body

module _ {S : Type 0} (server : Server S) where
  -- The handler that a call is meant for, with what the call says.
  abbrev pub handler_for : ClientCall → Handling S
  handler_for (list_jobs statuses) = handle_list_jobs server.error_text server.jobs statuses
  handler_for (get_job id) = handle_get_job server.error_text server.jobs id
  handler_for (get_job_logs id) = handle_get_job_logs server.error_text server.jobs id
  handler_for (delete_job id) = handle_dequeue server.error_text server.jobs id
  handler_for (enqueue_job flow inputs) =
      handle_enqueue server.error_text server.jobs (some (record { flow = flow; inputs = inputs }))
  handler_for list_flows = handle_list_flows server.error_text server.flows
  handler_for list_schedules = handle_list_schedules server.error_text server.schedules
  handler_for (get_flow name) = handle_get_flow server.error_text server.flows name
  handler_for (delete_flow name) = handle_delete_flow server.error_text server.flows name
  handler_for (add_flow name content) =
      handle_add_flow server.error_text server.flows name (some content)
  handler_for (rename_flow old_name new_name) =
      handle_rename_flow server.error_text server.flows server.update_references old_name
        (some new_name)
  handler_for (get_schedule name) = handle_get_schedule server.error_text server.schedules name
  handler_for (delete_schedule name) =
      handle_delete_schedule server.error_text server.schedules name
  handler_for (enable_schedule name) =
      handle_enable_schedule server.error_text server.schedules name
  handler_for (disable_schedule name) =
      handle_disable_schedule server.error_text server.schedules name
  handler_for (create_schedule name req) =
      handle_create_schedule server.error_text server.schedules (some (name, req))
  handler_for (update_schedule name req) =
      handle_update_schedule server.error_text server.schedules name (some req)

module _ {S D : Type 0} (lib : ServerLibrary D) (server : Server S) where
  -- The transport by which the server answers the requests.
  abbrev pub server_transport : Option Text → HttpRequest D → Exec S (HttpResponse D)
  server_transport socket = respond_to lib server

module _ {S D : Type 0} (lib : ServerLibrary D) (server : Server S) (c : Client) where
  -- The answer to a call: what its handler does for the key of the client.
  abbrev pub answered : ClientCall → Handling S
  answered call = guarded lib server (route_for call) (λ request. handler_for server call) c.api_key

module _ {S D : Type 0} (http : HttpLibrary D) (lib : ServerLibrary D) (server : Server S)
    (c : Client) where
  abbrev pub perform : ClientCall → Fetch S Value
  perform (list_jobs statuses) =
      relabel jobs_value (Call.list_jobs http (server_transport lib server) c statuses)
  perform (get_job id) = relabel job_value (Call.get_job http (server_transport lib server) c id)
  perform (get_job_logs id) =
      relabel text_value (Call.get_job_logs http (server_transport lib server) c id)
  perform (delete_job id) =
      relabel (λ _. nothing) (Call.delete_job http (server_transport lib server) c id)
  perform (enqueue_job flow inputs) =
      relabel text_value (Call.enqueue_job http (server_transport lib server) c flow inputs)
  perform list_flows = relabel flows_value (Call.list_flows http (server_transport lib server) c)
  perform list_schedules =
      relabel schedules_value (Call.list_schedules http (server_transport lib server) c)
  perform (get_flow name) =
      relabel flow_value (Call.get_flow http (server_transport lib server) c name)
  perform (delete_flow name) =
      relabel (λ _. nothing) (Call.delete_flow http (server_transport lib server) c name)
  perform (add_flow name content) =
      relabel (λ _. nothing) (Call.add_flow http (server_transport lib server) c name content)
  perform (rename_flow old_name new_name) =
      relabel (λ _. nothing)
        (Call.rename_flow http (server_transport lib server) c old_name new_name)
  perform (get_schedule name) =
      relabel schedule_value (Call.get_schedule http (server_transport lib server) c name)
  perform (delete_schedule name) =
      relabel (λ _. nothing) (Call.delete_schedule http (server_transport lib server) c name)
  perform (enable_schedule name) =
      relabel (λ _. nothing) (Call.enable_schedule http (server_transport lib server) c name)
  perform (disable_schedule name) =
      relabel (λ _. nothing) (Call.disable_schedule http (server_transport lib server) c name)
  perform (create_schedule name req) =
      relabel (λ _. nothing) (Call.create_schedule http (server_transport lib server) c name req)
  perform (update_schedule name req) =
      relabel (λ _. nothing) (Call.update_schedule http (server_transport lib server) c name req)

  -- The client reads of a call what the server answers to it, and leaves what the server leaves, where
  -- the URL is that of the call and the request comes to its route.
  abbrev pub IsPerformed : Text → S → ClientCall → Type 0
  IsPerformed url s call =
      UrlFor http lib c call url
      → Reaches http lib call url
      → perform call s
        ≡ (report http lib (answered lib server c call s).0, (answered lib server c call s).1)
