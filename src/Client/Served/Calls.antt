-- ===== src/Client/Served/Calls.antt =====
-- The calls of the client's methods, the routes that they are meant for, and what they give back.
use yafe.Prelude.{List, []}
use yafe.Text.{Text}
use yafe.Job.{Job, JobStatus, status_text}
use yafe.Scheduler.Cycle.{ScheduleWithNextRun}
use yafe.Server.Schedules.{ScheduleRequest}
use yafe.Server.Routes.{Route}
use yafe.Client.{ClientJob, ClientSchedule, FlowResponse, Outcome, success, refused, Fetch}

-- A call of a method of the client.
pub data ClientCall : Type 0 where
  list_jobs : List Text → ClientCall
  get_job get_job_logs delete_job : Text → ClientCall
  enqueue_job : Text → List (Text × Text) → ClientCall
  list_flows list_schedules : ClientCall
  get_flow delete_flow : Text → ClientCall
  add_flow rename_flow : Text → Text → ClientCall
  get_schedule delete_schedule enable_schedule disable_schedule : Text → ClientCall
  create_schedule update_schedule : Text → ScheduleRequest → ClientCall

-- What the methods give back, in one type.
pub data Value : Type 0 where
  nothing : Value
  text_value : Text → Value
  jobs_value : List ClientJob → Value
  job_value : ClientJob → Value
  flows_value : List Text → Value
  flow_value : FlowResponse → Value
  schedules_value : List ClientSchedule → Value
  schedule_value : ClientSchedule → Value

abbrev pub relabel_outcome : {A : Type 0} → (A → Value) → Outcome A → Outcome Value
relabel_outcome f (success a) = success (f a)
relabel_outcome f (refused e) = refused e

abbrev pub relabel : {S A : Type 0} → (A → Value) → Fetch S A → Fetch S Value
relabel f m s = (relabel_outcome f (m s).0, (m s).1)

-- What the client makes of a job and of a schedule that the server sends.
abbrev pub client_job : Job × JobStatus → ClientJob
client_job (job, status) = record {
  id = job.id;
  flow = job.flow;
  inputs = job.inputs;
  created_at = job.created_at;
  started_at = job.started_at;
  ended_at = job.ended_at;
  error = job.error;
  exit_code = job.exit_code;
  status = status_text status;
}

abbrev pub client_schedule : ScheduleWithNextRun → ClientSchedule
client_schedule sent = record {
  name = sent.schedule.name;
  flow = sent.schedule.flow;
  kind = sent.schedule.kind;
  expression = sent.schedule.expression;
  inputs = sent.schedule.inputs;
  enabled = sent.schedule.enabled;
  created_at = sent.schedule.created_at;
  last_run_at = sent.schedule.last_run_at;
  next_run_at = sent.next_run_at;
}

-- The route that a call is meant for, and the value of the wildcard.
abbrev pub route_for : ClientCall → Route
route_for (list_jobs statuses) = Route.get_jobs
route_for (get_job id) = Route.get_job
route_for (get_job_logs id) = Route.get_job_logs
route_for (delete_job id) = Route.delete_job
route_for (enqueue_job flow inputs) = Route.post_jobs
route_for list_flows = Route.get_flows
route_for list_schedules = Route.get_schedules
route_for (get_flow name) = Route.get_flow
route_for (delete_flow name) = Route.delete_flow
route_for (add_flow name content) = Route.put_flow
route_for (rename_flow old_name new_name) = Route.post_rename_flow
route_for (get_schedule name) = Route.get_schedule
route_for (delete_schedule name) = Route.delete_schedule
route_for (enable_schedule name) = Route.post_enable_schedule
route_for (disable_schedule name) = Route.post_disable_schedule
route_for (create_schedule name req) = Route.post_schedules
route_for (update_schedule name req) = Route.put_schedule

abbrev pub value_for : ClientCall → Text
value_for (get_job id) = id
value_for (get_job_logs id) = id
value_for (delete_job id) = id
value_for (get_flow name) = name
value_for (delete_flow name) = name
value_for (add_flow name content) = name
value_for (rename_flow old_name new_name) = old_name
value_for (get_schedule name) = name
value_for (delete_schedule name) = name
value_for (enable_schedule name) = name
value_for (disable_schedule name) = name
value_for (update_schedule name req) = name
value_for (list_jobs statuses) = []
value_for (enqueue_job flow inputs) = []
value_for list_flows = []
value_for list_schedules = []
value_for (create_schedule name req) = []
