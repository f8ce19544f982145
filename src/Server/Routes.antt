-- ===== src/Server/Routes.antt =====
-- `buildHandler` of internal/server/server.go: the routes, the role that each of them asks for, and
-- the middleware in front of them. The pattern matching of `http.ServeMux` is not modelled: a request
-- comes with its route.
use yafe.Prelude.{map, [], ◌≡◌, inl, inr, Bool, true, false, Option, none, some, arith, refl}
use yafe.Auth.{
  role_text, Role, jobs_read, jobs_write, flows_read, flows_write, schedules_read, schedules_write,
  User, Authenticator, has_role,
}
use yafe.Server.{Answer, answer, profile_body}
use yafe.Auth.Middleware.{
  Request, reply, Handler, middleware, require_role, authenticated, with_user, reached_only,
}

pub data Route : Type 0 where
  get_jobs post_jobs get_job get_job_logs delete_job : Route
  get_flows get_flow put_flow delete_flow post_rename_flow : Route
  get_profile : Route
  get_schedules get_schedule post_schedules put_schedule delete_schedule : Route
  post_enable_schedule post_disable_schedule : Route

-- The role that `RequireRole` asks for.
unfoldable pub route_role : Route → Option Role
route_role get_jobs = some jobs_read
route_role post_jobs = some jobs_write
route_role get_job = some jobs_read
route_role get_job_logs = some jobs_read
route_role delete_job = some jobs_write
route_role get_flows = some flows_read
route_role get_flow = some flows_read
route_role put_flow = some flows_write
route_role delete_flow = some flows_write
route_role post_rename_flow = some flows_write
route_role get_profile = none
route_role get_schedules = some schedules_read
route_role get_schedule = some schedules_read
route_role post_schedules = some schedules_write
route_role put_schedule = some schedules_write
route_role delete_schedule = some schedules_write
route_role post_enable_schedule = some schedules_write
route_role post_disable_schedule = some schedules_write

-- The API handler in front of the handlers of the routes; the access log passes every request on.
unfoldable pub api_handler :
    {R : Type 0} → Option Authenticator → Bool → (Route → Handler R) → Route → Handler R
api_handler auth required handlers route = middleware auth required (elim (route_role route) [
  | none ↦ handlers route
  | some role ↦ require_role role (handlers route)
])

-- The routes whose handlers change flows, jobs or schedules.
abbrev pub changes : Route → Bool
changes post_jobs = true
changes delete_job = true
changes put_flow = true
changes delete_flow = true
changes post_rename_flow = true
changes post_schedules = true
changes put_schedule = true
changes delete_schedule = true
changes post_enable_schedule = true
changes post_disable_schedule = true
changes _ = false

-- A role that allows to write.
abbrev pub is_write : Role → Bool
is_write jobs_write = true
is_write flows_write = true
is_write schedules_write = true
is_write _ = false

write_role :
    (route : Route)
    → changes route ≡ true
    → (role : Role) × (route_role route ≡ some role) × (is_write role ≡ true)
unfolding route_role
write_role post_jobs h = (jobs_write, refl, refl)
write_role delete_job h = (jobs_write, refl, refl)
write_role put_flow h = (flows_write, refl, refl)
write_role delete_flow h = (flows_write, refl, refl)
write_role post_rename_flow h = (flows_write, refl, refl)
write_role post_schedules h = (schedules_write, refl, refl)
write_role put_schedule h = (schedules_write, refl, refl)
write_role delete_schedule h = (schedules_write, refl, refl)
write_role post_enable_schedule h = (schedules_write, refl, refl)
write_role post_disable_schedule h = (schedules_write, refl, refl)
write_role get_jobs h = ground arith
write_role get_job h = ground arith
write_role get_job_logs h = ground arith
write_role get_flows h = ground arith
write_role get_flow h = ground arith
write_role get_profile h = ground arith
write_role get_schedules h = ground arith
write_role get_schedule h = ground arith

-- Where authentication is required, a request without a user in its context that reaches the handler
-- of a route that changes anything comes with the key of a user who has a role that allows to write,
-- and the handler sees that user.
pub changes_need_write_role :
    (auth : Option Authenticator) (route : Route) (r : Request) (seen : Route × Request)
    → changes route ≡ true
    → r.user ≡ none
    → api_handler auth true (λ to request. reply (to, request)) route r ≡ reply seen
    → (user : User) × (role : Role) × (authenticated auth r ≡ some user)
      × (has_role role user ≡ true)
      × (is_write role ≡ true)
      × (seen ≡ (route, with_user r user))
unfolding api_handler
changes_need_write_role auth route r seen c n h =
    let (role, asked, write) = write_role route c in
    let next = λ (request : Request). reply (route, request) in
    let through : middleware auth true (require_role role next) r ≡ reply seen =
      ground (arith, asked, h) in
    elim (reached_only auth true role next r seen n through) [
      | inl (off, _, _) ↦ absurd (ground (arith, off))
      | inr (user, known, has, k) ↦ (user, role, known, has, write, ground arith)
    ]

-- `handleProfile`
unfoldable pub handle_profile : Request → Answer
handle_profile r = elim r.user [
  | none ↦ answer 200 (profile_body [] [])
  | some user ↦ answer 200 (profile_body user.name (map role_text user.roles))
]
