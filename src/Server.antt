-- ===== src/Server.antt =====
-- internal/server/server.go: what the handlers of the HTTP interface answer. A handler is a procedure
-- over the state of the services that it calls; a service is a record of the operations of its Go
-- interface. The decoded request body is an argument, which is `none` if decoding fails.
pub mod Jobs
pub mod Flows
pub mod Schedules
pub mod Routes
pub mod Serve
pub mod Headers
use yafe.Prelude.{ℕ, Bool, true, false, Option, none, some, List, [], ◌∷◌, ◌==◌, if◌then◌else◌}
use yafe.Text.{Text, codes}
use yafe.Result.{
  Error, Result, ok, err, io_failure, not_exist, malformed, flow_not_found, flow_exists,
  invalid_flow_name, job_not_found, schedule_not_found, schedule_exists, invalid_schedule_name,
  invalid_schedule_type, invalid_expression, unknown_flow, invalid_role, failure, wrapped,
  of_engine, joined,
}
use yafe.Exec.{Exec}
use yafe.Job.{Job, JobStatus}
use yafe.Scheduler.Cycle.{ScheduleWithNextRun}

-- The error that a chain of wrapped errors ends in. A sentinel of the engine in front of it is passed over.
unfoldable pub root : Error → Error
root (wrapped e) = root e
root (joined sentinel e) = root e
root e = e

abbrev pub error_code : Error → ℕ
error_code io_failure = 0
error_code not_exist = 1
error_code malformed = 2
error_code flow_not_found = 3
error_code flow_exists = 4
error_code invalid_flow_name = 5
error_code job_not_found = 6
error_code schedule_not_found = 7
error_code schedule_exists = 8
error_code invalid_schedule_name = 9
error_code invalid_schedule_type = 10
error_code invalid_expression = 11
error_code unknown_flow = 12
error_code invalid_role = 13
error_code failure = 14
error_code (wrapped e) = 15
error_code (of_engine e) = 16
error_code (joined sentinel e) = 17

-- `errors.Is` for a target that is one of the sentinel errors outside the engine, which wrap nothing.
unfoldable pub errors_is : Error → Error → Bool
unfolding root
errors_is e target = error_code (root e) == error_code target

-- What is written to the client.
pub data Body : Type 0 where
  no_body : Body
  -- `ErrorResponse`
  error_body : Text → Body
  -- `EnqueueResponse`
  job_id_body : Text → Body
  jobs_body : List (Job × JobStatus) → Body
  job_body : Job × JobStatus → Body
  -- plain text
  logs_body : Text → Body
  flows_body : List Text → Body
  -- `FlowResponse`: a name and contents
  flow_body : Text → Text → Body
  schedules_body : List ScheduleWithNextRun → Body
  schedule_body : ScheduleWithNextRun → Body
  -- `ProfileResponse`: a user's name and roles
  profile_body : Text → List Text → Body

pub record Answer : Type 0 where
  pub code : ℕ
  pub body : Body

abbrev pub answer : ℕ → Body → Answer
answer code body = record { code = code; body = body }

-- `writeError`
abbrev pub write_error : ℕ → Text → Answer
write_error code message = answer code (error_body message)

abbrev pub Handling : Type 0 → Type 0
Handling S = S → Answer × S

module _ {S A : Type 0} where
  -- An answer to the result of a call.
  abbrev pub respond : Exec S A → (A → Answer) → (Error → Answer) → Handling S
  respond m f g s = (elim (m s).0 [ ok a ↦ f a | err e ↦ g e ], (m s).1)

abbrev pub reply : {S : Type 0} → Answer → Handling S
reply a s = (a, s)

abbrev pub if_empty : {S : Type 0} → Bool → Answer → Handling S → Handling S
if_empty b a h s = if b then (a, s) else h s
