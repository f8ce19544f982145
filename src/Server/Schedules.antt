-- ===== src/Server/Schedules.antt =====
-- The handlers of schedules, which all answer 503 if the server has no scheduler.
use yafe.Prelude.{Bool, ◌||◌, Option, none, some, List, if◌then◌else◌}
use yafe.Text.{Text, codes, is_empty}
use yafe.Result.{
  Error, schedule_not_found, schedule_exists, invalid_schedule_name, invalid_schedule_type,
  invalid_expression, unknown_flow,
}
use yafe.Exec.{Exec}
use yafe.Schedule.{Schedule}
use yafe.Scheduler.Cycle.{ScheduleWithNextRun}
use yafe.Server.{
  Answer, Handling, answer, write_error, respond, if_empty, errors_is, no_body, schedules_body,
  schedule_body,
}

-- `scheduler.Service`, without the call that renames flows.
pub record ScheduleService (S : Type 0) : Type 0 where
  pub create : Schedule → Exec S (Unit {0})
  pub update : Schedule → Exec S (Unit {0})
  pub delete : Text → Exec S (Unit {0})
  pub enable : Text → Exec S (Unit {0})
  pub disable : Text → Exec S (Unit {0})
  pub list : Exec S (List ScheduleWithNextRun)
  pub get : Text → Exec S ScheduleWithNextRun

-- `UpdateScheduleRequest`; a `CreateScheduleRequest` has a name as well.
pub record ScheduleRequest : Type 0 where
  pub flow : Text
  pub kind : Text
  pub expression : Text
  pub inputs : List (Text × Text)
  pub enabled : Bool

-- The schedule that a request describes, with the zero values of the other fields.
abbrev pub requested : Text → ScheduleRequest → Schedule
requested name req = record {
  name = name;
  flow = req.flow;
  inputs = req.inputs;
  kind = req.kind;
  expression = req.expression;
  enabled = req.enabled;
  created_at = 0;
  last_run_at = none;
}

module _ {S : Type 0} (error_text : Error → Text) (service : Option (ScheduleService S)) where
  abbrev pub with_scheduler : (ScheduleService S → Handling S) → Handling S
  with_scheduler f s = elim service [
    | none ↦ (write_error 503 (codes "scheduler not configured"), s)
    | some sched ↦ f sched s
  ]

  abbrev pub with_name : Text → Handling S → Handling S
  with_name name = if_empty (is_empty name) (write_error 400 (codes "schedule name is required"))

  -- The fields that both requests must have.
  abbrev pub with_fields : ScheduleRequest → Handling S → Handling S
  with_fields req h = if_empty (is_empty req.flow) (write_error 400 (codes "flow is required")) (
      if_empty (is_empty req.kind) (write_error 400 (codes "type is required"))
        (if_empty (is_empty req.expression) (write_error 400 (codes "expression is required")) h))

  -- The errors that say what is wrong with a schedule.
  abbrev pub is_refusal : Error → Bool
  is_refusal e =
      errors_is e invalid_schedule_name
      || errors_is e invalid_schedule_type
      || errors_is e invalid_expression
      || errors_is e unknown_flow

  -- What the handlers of one schedule answer to an error.
  abbrev pub name_error : Text → Error → Answer
  name_error otherwise e =
      if errors_is e schedule_not_found
      then write_error 404 (codes "schedule not found")
      else if errors_is e invalid_schedule_name
      then write_error 400 (error_text e)
      else write_error 500 otherwise

  unfoldable pub handle_list_schedules : Handling S
  handle_list_schedules = with_scheduler λ sched.
      respond sched.list (λ schedules. answer 200 (schedules_body schedules))
        (λ e. write_error 500 (codes "failed to list schedules"))

  unfoldable pub handle_get_schedule : Text → Handling S
  handle_get_schedule name = with_scheduler λ sched. with_name name (
      respond (sched.get name) (λ schedule. answer 200 (schedule_body schedule))
        (name_error (codes "failed to get schedule")))

  -- The request with the name that it has.
  unfoldable pub handle_create_schedule : Option (Text × ScheduleRequest) → Handling S
  handle_create_schedule request = with_scheduler λ sched s. elim request [
    | none ↦ (write_error 400 (codes "invalid request body"), s)
    | some (name, req) ↦
        if_empty (is_empty name) (write_error 400 (codes "name is required"))
          (with_fields req (
            respond (sched.create (requested name req)) (λ _. answer 201 no_body)
              (λ e.
                if errors_is e schedule_exists
                then write_error 409 (codes "schedule already exists")
                else if is_refusal e
                then write_error 400 (error_text e)
                else write_error 500 (codes "failed to create schedule"))))
          s
  ]

  unfoldable pub handle_update_schedule : Text → Option ScheduleRequest → Handling S
  handle_update_schedule name request = with_scheduler λ sched. with_name name λ s. elim request [
    | none ↦ (write_error 400 (codes "invalid request body"), s)
    | some req ↦
        with_fields req
          (respond (sched.update (requested name req)) (λ _. answer 204 no_body)
            (λ e.
              if errors_is e schedule_not_found
              then write_error 404 (codes "schedule not found")
              else if is_refusal e
              then write_error 400 (error_text e)
              else write_error 500 (codes "failed to update schedule")))
          s
  ]

  unfoldable pub handle_delete_schedule : Text → Handling S
  handle_delete_schedule name = with_scheduler λ sched. with_name name (
      respond (sched.delete name) (λ _. answer 204 no_body)
        (name_error (codes "failed to delete schedule")))

  unfoldable pub handle_enable_schedule : Text → Handling S
  handle_enable_schedule name = with_scheduler λ sched. with_name name (
      respond (sched.enable name) (λ _. answer 204 no_body)
        (name_error (codes "failed to enable schedule")))

  unfoldable pub handle_disable_schedule : Text → Handling S
  handle_disable_schedule name = with_scheduler λ sched. with_name name (
      respond (sched.disable name) (λ _. answer 204 no_body)
        (name_error (codes "failed to disable schedule")))
