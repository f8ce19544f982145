-- ===== src/Examples/Clients.antt =====
-- Witnesses for the client. A body is what one side encoded, as it is.
use yafe.Prelude.{ℕ, suc, ◌≡◌, refl, true, Option, none, some, List, [], ◌∷◌, map, if◌then◌else◌}
use yafe.Text.{Text, codes, text_eq, is_empty}
use yafe.Result.{Error, Result, ok, err, malformed, job_not_found}
use yafe.Exec.{pure, raise}
use yafe.Job.{Job}
use yafe.Auth.{jobs_write, User, has_role, contains, role_eq, file_authenticate}
use yafe.Auth.Middleware.{middleware, require_role}
use yafe.Server.{
  Body, error_body, job_id_body, jobs_body, job_body, logs_body, flows_body, flow_body,
  schedules_body, schedule_body, write_error,
}
use yafe.Server.Jobs.{handle_enqueue}
use yafe.Server.Routes.{post_jobs, api_handler, route_role}
use yafe.Server.Serve.{ServerLibrary, Server, guarded, route_pattern}
use yafe.Client.{
  HttpLibrary, Client, new_http_client, Payload, enqueue_payload, content_payload, new_name_payload,
  create_payload, update_payload, success,
}
use yafe.Client.Served.{enqueue_job, text_value, client_job, client_schedule, Agree, perform}
use yafe.Client.Served.Performed.{call_performed}

pub data Wire : Type 0 where
  empty : Wire
  request_wire : Payload → Wire
  answer_wire : Body → Wire

abbrev of_answer : {A : Type 0} → (Body → Option A) → Wire → Result A
of_answer f (answer_wire b) = elim (f b) [ none ↦ err malformed | some a ↦ ok a ]
of_answer f _ = err malformed

abbrev of_request : {A : Type 0} → (Payload → Option A) → Wire → Option A
of_request f (request_wire p) = f p
of_request f _ = none

abbrev read_error : Wire → Option Text
read_error (answer_wire (error_body message)) = some message
read_error _ = none

abbrev read_text : Wire → Text × Option Error
read_text (answer_wire (logs_body logs)) = (logs, none)
read_text _ = ([], none)

abbrev pub a_library : HttpLibrary Wire
a_library = record {
  path_escape = λ s. s;
  with_query = λ url pairs. ok url;
  request_error = λ method url. none;
  no_body = empty;
  marshal = λ p. ok (request_wire p);
  read_all = read_text;
  decode_error = read_error;
  decode_jobs = of_answer (λ b. elim b [ jobs_body jobs ↦ some (map client_job jobs) | _ ↦ none ]);
  decode_job = of_answer (λ b. elim b [ job_body job ↦ some (client_job job) | _ ↦ none ]);
  decode_job_id = of_answer (λ b. elim b [ job_id_body id ↦ some id | _ ↦ none ]);
  decode_flows = of_answer (λ b. elim b [ flows_body names ↦ some names | _ ↦ none ]);
  decode_flow = of_answer (λ b. elim b [
    | flow_body name content ↦ some (record { name = name; content = content })
    | _ ↦ none
  ]);
  decode_schedules =
      of_answer
        (λ b. elim b [ schedules_body found ↦ some (map client_schedule found) | _ ↦ none ]);
  decode_schedule =
      of_answer (λ b. elim b [ schedule_body found ↦ some (client_schedule found) | _ ↦ none ]);
}

abbrev pub jobs_url : Text
jobs_url = codes "http://localhost:8080/api/v1/jobs"

abbrev pub a_server_library : ServerLibrary Wire
a_server_library = record {
  route_of = λ method url. if text_eq url jobs_url then some (post_jobs, []) else none;
  query_statuses = λ url. [];
  decode_enqueue = of_request (λ p. elim p [
    | enqueue_payload flow inputs ↦ some (record { flow = flow; inputs = inputs })
    | _ ↦ none
  ]);
  decode_content = of_request (λ p. elim p [ content_payload c ↦ some c | _ ↦ none ]);
  decode_new_name = of_request (λ p. elim p [ new_name_payload name ↦ some name | _ ↦ none ]);
  decode_create =
      of_request (λ p. elim p [ create_payload name req ↦ some (name, req) | _ ↦ none ]);
  decode_update = of_request (λ p. elim p [ update_payload req ↦ some req | _ ↦ none ]);
  encode = answer_wire;
  unrouted = λ method url. write_error 404 (codes "404 page not found");
}

pub agreed : Agree a_library a_server_library
agreed = record {
  sent_enqueue = λ flow inputs. (request_wire (enqueue_payload flow inputs), refl, refl);
  sent_content = λ content. (request_wire (content_payload content), refl, refl);
  sent_new_name = λ name. (request_wire (new_name_payload name), refl, refl);
  sent_create = λ name req. (request_wire (create_payload name req), refl, refl);
  sent_update = λ req. (request_wire (update_payload req), refl, refl);
  got_error = λ message. refl;
  got_jobs = λ jobs. refl;
  got_job = λ job. refl;
  got_job_id = λ id. refl;
  got_logs = λ logs. refl;
  got_flows = λ names. refl;
  got_flow = λ name content. refl;
  got_schedules = λ schedules. refl;
  got_schedule = λ schedule. refl;
}

abbrev made_job : Text → List (Text × Text) → Job
made_job flow inputs = record {
  id = codes "j1";
  flow = flow;
  inputs = inputs;
  created_at = 7;
  started_at = none;
  ended_at = none;
  error = [];
  exit_code = none;
}

abbrev pub a_user : User
a_user = record { name = codes "ann"; hash = codes "k"; roles = jobs_write ∷ [] }

-- A server that asks for a key; it has no flows, and no job.
abbrev pub a_server : {S : Type 0} → Server S
a_server = record {
  jobs = record {
    enqueue = λ flow inputs. raise job_not_found;
    list_jobs = λ status. pure [];
    get_job = λ id. raise job_not_found;
    get_job_logs = λ id. raise job_not_found;
    delete_job = λ id. raise job_not_found;
  };
  flows = record {
    list = pure [];
    get = λ name. raise malformed;
    add = λ name content. raise malformed;
    delete = λ name. raise malformed;
    rename = λ old_name new_name. raise malformed;
  };
  update_references = none;
  schedules = none;
  error_text = λ e. codes "error";
  auth = some (file_authenticate text_eq (a_user ∷ []));
  required = true;
}

-- One that counts the jobs that were asked for.
abbrev counting_server : Server ℕ
counting_server = record a_server {
  jobs = record {
    enqueue = λ flow inputs n. (ok (made_job flow inputs), suc n);
    list_jobs = λ status. pure [];
    get_job = λ id. raise job_not_found;
    get_job_logs = λ id. raise job_not_found;
    delete_job = λ id. raise job_not_found;
  };
}

abbrev pub a_client : Client
a_client = new_http_client (codes "http://localhost:8080") (codes "k")

call_performed_example :
    perform a_library a_server_library counting_server a_client (enqueue_job (codes "build") []) 0
    ≡ (success (text_value (codes "j1")), 1)
unfolding guarded api_handler middleware is_empty file_authenticate text_eq route_role require_role
    has_role contains role_eq handle_enqueue route_pattern
call_performed_example =
    call_performed a_library a_server_library counting_server a_client agreed jobs_url 0
      (enqueue_job (codes "build") []) refl (refl, refl)
