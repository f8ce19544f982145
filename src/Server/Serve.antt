-- ===== src/Server/Serve.antt =====
-- `buildHandler` of internal/server/server.go from a request to a response: the patterns of the routes,
-- the middleware, and the handler of the route with what is read of the request. The matching of
-- `http.ServeMux`, the query, and the decoding and encoding of bodies are parameters.
use yafe.Prelude.{Bool, Option, none, some, List, ◌++◌}
use yafe.Text.{Text, codes}
use yafe.Result.{Error, ok}
use yafe.Exec.{Exec}
use yafe.Auth.{Authenticator}
use yafe.Auth.Middleware.{Request, Reply, reply, error_reply, middleware}
use yafe.Http.{Method, get, post, put, delete, HttpRequest, HttpResponse, header, api_key_header}
use yafe.Server.{Answer, Body, Handling, write_error}
use yafe.Server.Jobs.{
  JobService, EnqueueRequest, handle_enqueue, handle_list_jobs, handle_get_job, handle_get_job_logs,
  handle_dequeue,
}
use yafe.Server.Flows.{
  FlowService, handle_list_flows, handle_get_flow, handle_add_flow, handle_delete_flow,
  handle_rename_flow,
}
use yafe.Server.Schedules.{
  ScheduleService, ScheduleRequest, handle_list_schedules, handle_get_schedule,
  handle_create_schedule, handle_update_schedule, handle_delete_schedule, handle_enable_schedule,
  handle_disable_schedule,
}
use yafe.Server.Routes.{
  Route, get_jobs, post_jobs, get_job, get_job_logs, delete_job, get_flows, get_flow, put_flow,
  delete_flow, post_rename_flow, get_profile, get_schedules, get_schedule, post_schedules,
  put_schedule, delete_schedule, post_enable_schedule, post_disable_schedule, api_handler,
  handle_profile,
}

-- A pattern of a route: its method, and its path. A path may have one wildcard, of which the texts
-- before and behind are given.
pub data Pattern : Type 0 where
  exact : Method → Text → Pattern
  wildcard : Method → Text → Text → Pattern

-- The patterns that the handlers are registered under.
unfoldable pub route_pattern : Route → Pattern
route_pattern get_jobs = exact get (codes "/api/v1/jobs")
route_pattern post_jobs = exact post (codes "/api/v1/jobs")
route_pattern get_job = wildcard get (codes "/api/v1/jobs/") (codes "")
route_pattern get_job_logs = wildcard get (codes "/api/v1/jobs/") (codes "/logs")
route_pattern delete_job = wildcard delete (codes "/api/v1/jobs/") (codes "")
route_pattern get_flows = exact get (codes "/api/v1/flows")
route_pattern get_flow = wildcard get (codes "/api/v1/flows/") (codes "")
route_pattern put_flow = wildcard put (codes "/api/v1/flows/") (codes "")
route_pattern delete_flow = wildcard delete (codes "/api/v1/flows/") (codes "")
route_pattern post_rename_flow = wildcard post (codes "/api/v1/flows/") (codes "/rename")
route_pattern get_profile = exact get (codes "/api/v1/profile")
route_pattern get_schedules = exact get (codes "/api/v1/schedules")
route_pattern get_schedule = wildcard get (codes "/api/v1/schedules/") (codes "")
route_pattern post_schedules = exact post (codes "/api/v1/schedules")
route_pattern put_schedule = wildcard put (codes "/api/v1/schedules/") (codes "")
route_pattern delete_schedule = wildcard delete (codes "/api/v1/schedules/") (codes "")
route_pattern post_enable_schedule = wildcard post (codes "/api/v1/schedules/") (codes "/enable")
route_pattern post_disable_schedule = wildcard post (codes "/api/v1/schedules/") (codes "/disable")

abbrev pub pattern_method : Pattern → Method
pattern_method (exact method path) = method
pattern_method (wildcard method before behind) = method

-- The path that has an escaped value for the wildcard.
abbrev pub pattern_path : Pattern → Text → Text
pattern_path (exact method path) escaped = path
pattern_path (wildcard method before behind) escaped = before ++ (escaped ++ behind)

-- What the server calls of net/http and encoding/json: the route of a request with the value of its
-- wildcard, the values of `status` in the query of a URL, and the bodies.
pub record ServerLibrary (D : Type 0) : Type 0 where
  pub route_of : Method → Text → Option (Route × Text)
  pub query_statuses : Text → List Text
  pub decode_enqueue : D → Option EnqueueRequest
  pub decode_content : D → Option Text
  pub decode_new_name : D → Option Text
  pub decode_create : D → Option (Text × ScheduleRequest)
  pub decode_update : D → Option ScheduleRequest
  pub encode : Body → D
  -- what the mux of the interface answers to a request that has no route
  pub unrouted : Method → Text → Answer

-- `Server`: its services, and the authentication of the listener that the request came by.
pub record Server (S : Type 0) : Type 0 where
  pub jobs : JobService S
  pub flows : FlowService S
  pub update_references : Option (Text → Text → Exec S (Unit {0}))
  pub schedules : Option (ScheduleService S)
  pub error_text : Error → Text
  pub auth : Option Authenticator
  pub required : Bool

-- What is answered behind the middleware: an error that it writes itself, or what the handler does.
abbrev pub settle : {S : Type 0} → Reply (Handling S) → Handling S
settle (error_reply code message) s = (write_error code message, s)
settle (reply answered) s = answered s

module _ {S D : Type 0} (lib : ServerLibrary D) (server : Server S) where
  -- The handler of a route, with the value of the wildcard, and the URL and the body of the request.
  unfoldable pub route_handler : Route → Text → Text → D → Request → Handling S
  route_handler get_jobs value url body r =
      handle_list_jobs server.error_text server.jobs (lib.query_statuses url)
  route_handler post_jobs value url body r =
      handle_enqueue server.error_text server.jobs (lib.decode_enqueue body)
  route_handler get_job value url body r = handle_get_job server.error_text server.jobs value
  route_handler get_job_logs value url body r =
      handle_get_job_logs server.error_text server.jobs value
  route_handler delete_job value url body r = handle_dequeue server.error_text server.jobs value
  route_handler get_flows value url body r = handle_list_flows server.error_text server.flows
  route_handler get_flow value url body r = handle_get_flow server.error_text server.flows value
  route_handler put_flow value url body r =
      handle_add_flow server.error_text server.flows value (lib.decode_content body)
  route_handler delete_flow value url body r =
      handle_delete_flow server.error_text server.flows value
  route_handler post_rename_flow value url body r =
      handle_rename_flow server.error_text server.flows server.update_references value
        (lib.decode_new_name body)
  route_handler get_profile value url body r = λ s. (handle_profile r, s)
  route_handler get_schedules value url body r =
      handle_list_schedules server.error_text server.schedules
  route_handler get_schedule value url body r =
      handle_get_schedule server.error_text server.schedules value
  route_handler post_schedules value url body r =
      handle_create_schedule server.error_text server.schedules (lib.decode_create body)
  route_handler put_schedule value url body r =
      handle_update_schedule server.error_text server.schedules value (lib.decode_update body)
  route_handler delete_schedule value url body r =
      handle_delete_schedule server.error_text server.schedules value
  route_handler post_enable_schedule value url body r =
      handle_enable_schedule server.error_text server.schedules value
  route_handler post_disable_schedule value url body r =
      handle_disable_schedule server.error_text server.schedules value

  -- The handler of a route behind the middleware.
  unfoldable pub guarded : Route → (Request → Handling S) → Text → Handling S
  guarded route handler api_key s =
      settle
        (api_handler server.auth server.required (λ _ request. reply (handler request)) route
          (record { api_key = api_key; user = none }))
        s

  -- A request under `/api/`: the middleware stands before the mux, so that a request without a route
  -- comes to it as well.
  unfoldable pub serve : HttpRequest D → Handling S
  unfolding guarded route_handler middleware
  serve q s = elim (lib.route_of q.method q.url) [
    | none ↦
        settle
          (middleware server.auth server.required
            (λ request. reply (λ after. (lib.unrouted q.method q.url, after)))
            (record { api_key = header api_key_header q.headers; user = none }))
          s
    | some (route, value) ↦
        guarded route (route_handler route value q.url q.body) (header api_key_header q.headers) s
  ]

  -- The answer as it is sent.
  unfoldable pub respond_to : HttpRequest D → Exec S (HttpResponse D)
  respond_to q s =
      let (answered, after) = serve q s in
      (ok (record { status_code = answered.code; body = lib.encode answered.body }), after)
