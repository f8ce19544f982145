-- ===== src/Client/Served/Performed.antt =====
-- Every method of the client against the server: one statement for the calls of all the methods.
use yafe.Prelude.{◌≡◌}
use yafe.Text.{Text}
use yafe.Server.Serve.{ServerLibrary, Server}
use yafe.Client.{HttpLibrary, Client}
use yafe.Client.Served.{
  ClientCall, list_jobs, get_job, get_job_logs, delete_job, enqueue_job, list_flows, list_schedules,
  get_flow, delete_flow, add_flow, rename_flow, get_schedule, delete_schedule, enable_schedule,
  disable_schedule, create_schedule, update_schedule, Agree, UrlFor, Reaches, perform, report,
  answered,
}
use yafe.Client.Served.Jobs.{
  list_jobs-IsPerformed, get_job-IsPerformed, get_job_logs-IsPerformed, delete_job-IsPerformed,
  enqueue_job-IsPerformed,
}
use yafe.Client.Served.Flows.{
  list_flows-IsPerformed, get_flow-IsPerformed, add_flow-IsPerformed, delete_flow-IsPerformed,
  rename_flow-IsPerformed,
}
use yafe.Client.Served.Schedules.{
  list_schedules-IsPerformed, get_schedule-IsPerformed, create_schedule-IsPerformed,
  update_schedule-IsPerformed, delete_schedule-IsPerformed, enable_schedule-IsPerformed,
  disable_schedule-IsPerformed,
}

-- Where both sides agree on JSON, and a request for the pattern of a route comes to that route with the
-- value of its wildcard: a call of any method of the client does to the state what the handler that it
-- is meant for does with the arguments of the call, behind the authentication for the key of the
-- client. The client returns what the answer of that handler carries, and an error with the message of
-- the server if it answers with one.
pub call_performed :
    {S D : Type 0} (http : HttpLibrary D) (lib : ServerLibrary D) (server : Server S) (c : Client)
    (agree : Agree http lib) (url : Text) (s : S) (call : ClientCall)
    → UrlFor http lib c call url
    → Reaches http lib call url
    → perform http lib server c call s
      ≡ (report http lib (answered lib server c call s).0, (answered lib server c call s).1)
call_performed http lib server c agree url s (list_jobs statuses) =
    list_jobs-IsPerformed http lib server c agree url s statuses
call_performed http lib server c agree url s (get_job id) =
    get_job-IsPerformed http lib server c agree url s id
call_performed http lib server c agree url s (get_job_logs id) =
    get_job_logs-IsPerformed http lib server c agree url s id
call_performed http lib server c agree url s (delete_job id) =
    delete_job-IsPerformed http lib server c agree url s id
call_performed http lib server c agree url s (enqueue_job flow inputs) =
    enqueue_job-IsPerformed http lib server c agree url s flow inputs
call_performed http lib server c agree url s list_flows =
    list_flows-IsPerformed http lib server c agree url s
call_performed http lib server c agree url s list_schedules =
    list_schedules-IsPerformed http lib server c agree url s
call_performed http lib server c agree url s (get_flow name) =
    get_flow-IsPerformed http lib server c agree url s name
call_performed http lib server c agree url s (delete_flow name) =
    delete_flow-IsPerformed http lib server c agree url s name
call_performed http lib server c agree url s (add_flow name content) =
    add_flow-IsPerformed http lib server c agree url s name content
call_performed http lib server c agree url s (rename_flow old_name new_name) =
    rename_flow-IsPerformed http lib server c agree url s old_name new_name
call_performed http lib server c agree url s (get_schedule name) =
    get_schedule-IsPerformed http lib server c agree url s name
call_performed http lib server c agree url s (delete_schedule name) =
    delete_schedule-IsPerformed http lib server c agree url s name
call_performed http lib server c agree url s (enable_schedule name) =
    enable_schedule-IsPerformed http lib server c agree url s name
call_performed http lib server c agree url s (disable_schedule name) =
    disable_schedule-IsPerformed http lib server c agree url s name
call_performed http lib server c agree url s (create_schedule name req) =
    create_schedule-IsPerformed http lib server c agree url s name req
call_performed http lib server c agree url s (update_schedule name req) =
    update_schedule-IsPerformed http lib server c agree url s name req
