-- ===== src/Cli/Jobs.antt =====
-- cmd/yafe/main.go: the commands of `yafe jobs`.
pub mod Stored
use yafe.Prelude.{Bool, Option, none, some, List, [], ◌∷◌, ◌++◌, if◌then◌else◌}
use yafe.Text.{Text, codes}
use yafe.Exec.{Exec}
use yafe.Http.{HttpRequest, HttpResponse}
use yafe.Output.{
  Bytes, Table, KeyValue, new_table, add_row, format_time, format_int, format_string,
  truncate_string, print_key_values,
}
use yafe.Client.{HttpLibrary, Client, ClientJob}
use yafe.Client.Call.{list_jobs, get_job, get_job_logs, enqueue_job, delete_job}
use yafe.Cli.{
  Command, Terminal, Action, shown_jobs, shown_job, prints, fetching, with_argument, prints_table,
  with_inputs, print_inputs, prints_json, with_client,
}

abbrev pair : Bytes → Bytes → KeyValue
pair key value = record { key = key; value = value }

module _ {S D : Type 0} (os : Terminal S) (http : HttpLibrary D)
    (transport : Option Text → HttpRequest D → Exec S (HttpResponse D)) (cmd : Command) where
  -- `jobsEnqueueCmd`
  unfoldable pub jobs_enqueue : Action S
  jobs_enqueue = with_argument cmd (codes "flow name required") λ flow_name. with_client os cmd λ c.
      with_inputs (cmd.texts (codes "input")) λ inputs.
        fetching (codes "failed to enqueue job") (enqueue_job http transport c flow_name inputs)
          λ job_id. prints (codes "Job enqueued: " ++ (os.utf8 job_id ++ (10 ∷ [])))

  add_job_rows : List ClientJob → Table → Table
  add_job_rows [] table = table
  add_job_rows (job ∷ jobs) table = add_job_rows jobs (
      add_row
        (os.utf8 job.id
          ∷ os.utf8 job.status
          ∷ os.utf8 job.flow
          ∷ os.time_format job.created_at
          ∷ format_time os.time_format job.started_at
          ∷ format_time os.time_format job.ended_at
          ∷ truncate_string (format_string (os.utf8 job.error)) 40
          ∷ [])
        table)

  -- `jobsListCmd`
  unfoldable pub jobs_list : Action S
  unfolding add_job_rows
  jobs_list = with_client os cmd λ c.
      fetching (codes "failed to list jobs")
        (list_jobs http transport c (cmd.texts (codes "status")))
        λ jobs.
          if cmd.flag (codes "raw")
          then (elim jobs [
            | [] ↦ prints (codes "[]" ++ (10 ∷ []))
            | job ∷ rest ↦ prints_json os (codes "failed to encode jobs") (shown_jobs (job ∷ rest))
          ])
          else prints_table (
              add_job_rows jobs (
                new_table (
                  codes "ID"
                  ∷ codes "STATUS"
                  ∷ codes "FLOW"
                  ∷ codes "CREATED"
                  ∷ codes "STARTED"
                  ∷ codes "ENDED"
                  ∷ codes "ERROR"
                  ∷ [])))

  -- The lines of `jobsGetCmd`
  job_pairs : ClientJob → List KeyValue
  job_pairs job =
      pair (codes "ID") (os.utf8 job.id)
      ∷ pair (codes "Flow") (os.utf8 job.flow)
      ∷ pair (codes "Status") (os.utf8 job.status)
      ∷ pair (codes "Created") (os.time_format job.created_at)
      ∷ pair (codes "Started") (format_time os.time_format job.started_at)
      ∷ pair (codes "Ended") (format_time os.time_format job.ended_at)
      ∷ pair (codes "Exit Code") (format_int os.itoa job.exit_code)
      ∷ pair (codes "Error") (format_string (os.utf8 job.error))
      ∷ []

  -- `jobsGetCmd`
  unfoldable pub jobs_get : Action S
  unfolding job_pairs
  jobs_get = with_argument cmd (codes "job ID required") λ job_id. with_client os cmd λ c.
      fetching (codes "failed to get job") (get_job http transport c job_id) λ job.
        if cmd.flag (codes "raw")
        then prints_json os (codes "failed to encode job") (shown_job job)
        else prints (print_key_values (job_pairs job) [] ++ print_inputs os job.inputs)

  -- `jobsLogsCmd`
  unfoldable pub jobs_logs : Action S
  jobs_logs = with_argument cmd (codes "job ID required") λ job_id. with_client os cmd λ c.
      fetching (codes "failed to get job logs") (get_job_logs http transport c job_id)
        λ logs. prints (os.utf8 logs)

  -- `jobsDequeueCmd`
  unfoldable pub jobs_dequeue : Action S
  jobs_dequeue = with_argument cmd (codes "job ID required") λ job_id. with_client os cmd λ c.
      fetching (codes "failed to delete job") (delete_job http transport c job_id)
        λ _. prints (codes "Job deleted: " ++ (os.utf8 job_id ++ (10 ∷ [])))
