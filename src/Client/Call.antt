-- ===== src/Client/Call.antt =====
-- The methods of the client, one for each operation of the interface.
use yafe.Prelude.{ℕ, Option, none, some, List, [], map}
use yafe.Text.{Text, codes}
use yafe.Exec.{Exec}
use yafe.Http.{Method, get, post, put, delete, HttpRequest, HttpResponse}
use yafe.Server.Schedules.{ScheduleRequest}
use yafe.Client.{
  HttpLibrary, Client, ClientJob, ClientSchedule, FlowResponse, enqueue_payload, content_payload,
  new_name_payload, create_payload, update_payload, Outcome, success, refused, plain, encoding,
  decoding, reading, Fetch, or_refuse, go_on, json_header, exchange, url_of, url_with, read_nothing,
}

-- The paths that the methods begin with.
abbrev pub jobs_path : Text
jobs_path = codes "/api/v1/jobs"

abbrev pub flows_path : Text
flows_path = codes "/api/v1/flows"

abbrev pub schedules_path : Text
schedules_path = codes "/api/v1/schedules"

module _ {S D : Type 0} (http : HttpLibrary D)
    (transport : Option Text → HttpRequest D → Exec S (HttpResponse D)) (c : Client) where
  -- A request without a body, and one with an encoded body.
  abbrev ask : {A : Type 0} → Method → Text → ℕ → (D → Outcome A) → Fetch S A
  ask method url expected read = exchange http transport c method url [] http.no_body expected read

  -- `ListJobs`
  unfoldable pub list_jobs : List Text → Fetch S (List ClientJob)
  list_jobs statuses =
      go_on
        (or_refuse plain (
          http.with_query (url_of c jobs_path) (map (λ status. (codes "status", status)) statuses)))
        (λ url. ask get url 200 (λ body. or_refuse decoding (http.decode_jobs body)))

  -- `GetJob`
  unfoldable pub get_job : Text → Fetch S ClientJob
  get_job id =
      ask get (url_with http c (codes "/api/v1/jobs/") id []) 200
        (λ body. or_refuse decoding (http.decode_job body))

  -- `GetJobLogs`
  unfoldable pub get_job_logs : Text → Fetch S Text
  get_job_logs id =
      ask get (url_with http c (codes "/api/v1/jobs/") id (codes "/logs")) 200 (λ body.
        let (logs, broken) = http.read_all body in
        elim broken [ none ↦ success logs | some e ↦ refused (reading e) ])

  -- `EnqueueJob`
  unfoldable pub enqueue_job : Text → List (Text × Text) → Fetch S Text
  enqueue_job flow inputs =
      go_on (or_refuse encoding (http.marshal (enqueue_payload flow inputs))) (λ body.
        exchange http transport c post (url_of c jobs_path) json_header body 202
          (λ answer. or_refuse decoding (http.decode_job_id answer)))

  -- `DeleteJob`
  unfoldable pub delete_job : Text → Fetch S (Unit {0})
  delete_job id = ask delete (url_with http c (codes "/api/v1/jobs/") id []) 204 read_nothing

  -- `ListFlows`
  unfoldable pub list_flows : Fetch S (List Text)
  list_flows =
      ask get (url_of c flows_path) 200 (λ body. or_refuse decoding (http.decode_flows body))

  -- `GetFlow`
  unfoldable pub get_flow : Text → Fetch S FlowResponse
  get_flow name =
      ask get (url_with http c (codes "/api/v1/flows/") name []) 200
        (λ body. or_refuse decoding (http.decode_flow body))

  -- `AddFlow`
  unfoldable pub add_flow : Text → Text → Fetch S (Unit {0})
  add_flow name content =
      go_on (or_refuse encoding (http.marshal (content_payload content))) (λ body.
        exchange http transport c put (url_with http c (codes "/api/v1/flows/") name []) json_header
          body 201 read_nothing)

  -- `RenameFlow`
  unfoldable pub rename_flow : Text → Text → Fetch S (Unit {0})
  rename_flow old_name new_name =
      go_on (or_refuse plain (http.marshal (new_name_payload new_name))) (λ body.
        exchange http transport c post
          (url_with http c (codes "/api/v1/flows/") old_name (codes "/rename")) [] body 204
          read_nothing)

  -- `DeleteFlow`
  unfoldable pub delete_flow : Text → Fetch S (Unit {0})
  delete_flow name = ask delete (url_with http c (codes "/api/v1/flows/") name []) 204 read_nothing

  -- `ListSchedules`
  unfoldable pub list_schedules : Fetch S (List ClientSchedule)
  list_schedules =
      ask get (url_of c schedules_path) 200
        (λ body. or_refuse decoding (http.decode_schedules body))

  -- `GetSchedule`
  unfoldable pub get_schedule : Text → Fetch S ClientSchedule
  get_schedule name =
      ask get (url_with http c (codes "/api/v1/schedules/") name []) 200
        (λ body. or_refuse decoding (http.decode_schedule body))

  -- `CreateSchedule`
  unfoldable pub create_schedule : Text → ScheduleRequest → Fetch S (Unit {0})
  create_schedule name req =
      go_on (or_refuse encoding (http.marshal (create_payload name req))) (λ body.
        exchange http transport c post (url_of c schedules_path) json_header body 201 read_nothing)

  -- `UpdateSchedule`
  unfoldable pub update_schedule : Text → ScheduleRequest → Fetch S (Unit {0})
  update_schedule name req = go_on (or_refuse encoding (http.marshal (update_payload req))) (λ body.
      exchange http transport c put (url_with http c (codes "/api/v1/schedules/") name [])
        json_header body 204 read_nothing)

  -- `DeleteSchedule`
  unfoldable pub delete_schedule : Text → Fetch S (Unit {0})
  delete_schedule name =
      ask delete (url_with http c (codes "/api/v1/schedules/") name []) 204 read_nothing

  -- `EnableSchedule`
  unfoldable pub enable_schedule : Text → Fetch S (Unit {0})
  enable_schedule name =
      ask post (url_with http c (codes "/api/v1/schedules/") name (codes "/enable")) 204
        read_nothing

  -- `DisableSchedule`
  unfoldable pub disable_schedule : Text → Fetch S (Unit {0})
  disable_schedule name =
      ask post (url_with http c (codes "/api/v1/schedules/") name (codes "/disable")) 204
        read_nothing
