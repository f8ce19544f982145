-- ===== src/Cli/Schedules.antt =====
-- cmd/yafe/main.go: the commands of `yafe schedules`.
use yafe.Prelude.{Bool, ◌&&◌, not, Option, List, [], ◌∷◌, ◌++◌, if◌then◌else◌}
use yafe.Text.{Text, codes, is_empty}
use yafe.Exec.{Exec}
use yafe.Http.{HttpRequest, HttpResponse}
use yafe.Output.{Bytes, Table, KeyValue, new_table, add_row, format_time, print_key_values}
use yafe.Server.Schedules.{ScheduleRequest}
use yafe.Client.{HttpLibrary, ClientSchedule}
use yafe.Client.Call.{
  list_schedules, get_schedule, create_schedule, update_schedule, delete_schedule, enable_schedule,
  disable_schedule,
}
use yafe.Cli.{
  Command, Terminal, Action, shown_schedules, shown_schedule, usage, exit, prints, fetching,
  with_argument, prints_table, with_inputs, print_inputs, prints_json, with_client,
}

abbrev pair : Bytes → Bytes → KeyValue
pair key value = record { key = key; value = value }

abbrev yes_or_no : Bool → Bytes
yes_or_no b = if b then codes "yes" else codes "no"

module _ {S D : Type 0} (os : Terminal S) (http : HttpLibrary D)
    (transport : Option Text → HttpRequest D → Exec S (HttpResponse D)) (cmd : Command) where
  add_schedule_rows : List ClientSchedule → Table → Table
  add_schedule_rows [] table = table
  add_schedule_rows (sched ∷ schedules) table = add_schedule_rows schedules (
      add_row
        (os.utf8 sched.name
          ∷ os.utf8 sched.flow
          ∷ os.utf8 sched.kind
          ∷ os.utf8 sched.expression
          ∷ yes_or_no sched.enabled
          ∷ format_time os.time_format sched.next_run_at
          ∷ [])
        table)

  -- `schedulesListCmd`
  unfoldable pub schedules_list : Action S
  unfolding add_schedule_rows
  schedules_list = with_client os cmd λ c.
      fetching (codes "failed to list schedules") (list_schedules http transport c) λ schedules.
        if cmd.flag (codes "raw")
        then (elim schedules [
          | [] ↦ prints (codes "[]" ++ (10 ∷ []))
          | sched ∷ rest ↦
              prints_json os (codes "failed to encode schedules") (shown_schedules (sched ∷ rest))
        ])
        else prints_table (
            add_schedule_rows schedules (
              new_table (
                codes "NAME"
                ∷ codes "FLOW"
                ∷ codes "TYPE"
                ∷ codes "EXPRESSION"
                ∷ codes "ENABLED"
                ∷ codes "NEXT RUN"
                ∷ [])))

  -- The lines of `schedulesGetCmd`
  schedule_pairs : ClientSchedule → List KeyValue
  schedule_pairs sched =
      pair (codes "Name") (os.utf8 sched.name)
      ∷ pair (codes "Flow") (os.utf8 sched.flow)
      ∷ pair (codes "Type") (os.utf8 sched.kind)
      ∷ pair (codes "Expression") (os.utf8 sched.expression)
      ∷ pair (codes "Enabled") (yes_or_no sched.enabled)
      ∷ pair (codes "Created") (os.time_format sched.created_at)
      ∷ pair (codes "Last Run") (format_time os.time_format sched.last_run_at)
      ∷ pair (codes "Next Run") (format_time os.time_format sched.next_run_at)
      ∷ []

  -- `schedulesGetCmd`
  unfoldable pub schedules_get : Action S
  unfolding schedule_pairs
  schedules_get = with_argument cmd (codes "schedule name required") λ schedule_name.
      with_client os cmd λ c.
        fetching (codes "failed to get schedule") (get_schedule http transport c schedule_name)
          λ sched.
            if cmd.flag (codes "raw")
            then prints_json os (codes "failed to encode schedule") (shown_schedule sched)
            else prints (print_key_values (schedule_pairs sched) [] ++ print_inputs os sched.inputs)

  -- `schedulesAddCmd`
  unfoldable pub schedules_add : Action S
  schedules_add = with_argument cmd (codes "schedule name required") λ schedule_name.
      let cron_expr = cmd.text (codes "cron") in
      let interval_expr = cmd.text (codes "interval") in
      if is_empty cron_expr && is_empty interval_expr
      then exit (usage (codes "either --cron or --interval is required"))
      else if not (is_empty cron_expr) && not (is_empty interval_expr)
      then exit (usage (codes "--cron and --interval are mutually exclusive"))
      else with_client os cmd λ c. with_inputs (cmd.texts (codes "input")) λ inputs.
        let req : ScheduleRequest = record {
          flow = cmd.text (codes "flow");
          kind = if is_empty cron_expr then codes "interval" else codes "cron";
          expression = if is_empty cron_expr then interval_expr else cron_expr;
          inputs = inputs;
          enabled = not (cmd.flag (codes "disabled"));
        } in
        fetching (codes "failed to create schedule")
          (create_schedule http transport c schedule_name req)
          λ _. prints (codes "Schedule created: " ++ (os.utf8 schedule_name ++ (10 ∷ [])))

  -- The request of `schedulesUpdateCmd`: the existing schedule, less what the flags give.
  unfoldable pub updated : ClientSchedule → List (Text × Text) → ScheduleRequest
  updated existing inputs =
      let cron_expr = cmd.text (codes "cron") in
      let interval_expr = cmd.text (codes "interval") in
      record {
        flow = if cmd.is_set (codes "flow") then cmd.text (codes "flow") else existing.flow;
        kind =
            if not (is_empty cron_expr)
            then codes "cron"
            else if not (is_empty interval_expr)
            then codes "interval"
            else existing.kind;
        expression =
            if not (is_empty cron_expr)
            then cron_expr
            else if not (is_empty interval_expr)
            then interval_expr
            else existing.expression;
        inputs = inputs;
        enabled = existing.enabled;
      }

  -- The inputs of `--input`, if it is set, and otherwise those that the schedule has.
  abbrev with_new_inputs : ClientSchedule → (List (Text × Text) → Action S) → Action S
  with_new_inputs existing next =
      if cmd.is_set (codes "input")
      then with_inputs (cmd.texts (codes "input")) next
      else next existing.inputs

  -- `schedulesUpdateCmd`
  unfoldable pub schedules_update : Action S
  unfolding updated
  schedules_update = with_argument cmd (codes "schedule name required") λ schedule_name.
      if not (is_empty (cmd.text (codes "cron"))) && not (is_empty (cmd.text (codes "interval")))
      then exit (usage (codes "--cron and --interval are mutually exclusive"))
      else with_client os cmd λ c.
        fetching (codes "failed to get schedule") (get_schedule http transport c schedule_name)
          λ existing. with_new_inputs existing λ inputs.
            fetching (codes "failed to update schedule")
              (update_schedule http transport c schedule_name (updated existing inputs))
              λ _. prints (codes "Schedule updated: " ++ (os.utf8 schedule_name ++ (10 ∷ [])))

  -- `schedulesRemoveCmd`
  unfoldable pub schedules_remove : Action S
  schedules_remove = with_argument cmd (codes "schedule name required") λ schedule_name.
      with_client os cmd λ c.
        fetching (codes "failed to delete schedule")
          (delete_schedule http transport c schedule_name)
          λ _. prints (codes "Schedule deleted: " ++ (os.utf8 schedule_name ++ (10 ∷ [])))

  -- `schedulesEnableCmd`
  unfoldable pub schedules_enable : Action S
  schedules_enable = with_argument cmd (codes "schedule name required") λ schedule_name.
      with_client os cmd λ c.
        fetching (codes "failed to enable schedule")
          (enable_schedule http transport c schedule_name)
          λ _. prints (codes "Schedule enabled: " ++ (os.utf8 schedule_name ++ (10 ∷ [])))

  -- `schedulesDisableCmd`
  unfoldable pub schedules_disable : Action S
  schedules_disable = with_argument cmd (codes "schedule name required") λ schedule_name.
      with_client os cmd λ c.
        fetching (codes "failed to disable schedule")
          (disable_schedule http transport c schedule_name)
          λ _. prints (codes "Schedule disabled: " ++ (os.utf8 schedule_name ++ (10 ∷ [])))
