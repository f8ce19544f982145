-- ===== src/Examples.antt =====
-- The theorems at concrete inputs, and the data that they share.
mod Jobs
mod Flows
mod Schedules
mod Users
mod Due
mod Engine
mod Clients
mod Workers
mod Commands
mod Terminal
use yafe.Prelude.{ℕ, refl, Bool, true, false, Option, none, some, List, [], ◌∷◌}
use yafe.Text.{Text, codes}
use yafe.Disk.{FilePath}
use yafe.Job.{Job, pending, job_filename, Codec}
use yafe.Queue.{FileQueue, job_path}

-- File contents that are a value, or are malformed.
abbrev pub value_codec : (A : Type 0) → Codec A (Option A)
value_codec A = record { encode = λ a. some a; decode = λ c. c; decode-encode = λ a. refl }

abbrev pub backup_job : Job
backup_job = record {
  id = codes "a1";
  flow = codes "backup";
  inputs = [];
  created_at = 7;
  started_at = none;
  ended_at = none;
  error = [];
  exit_code = none;
}

abbrev pub report_job : Job
report_job = record backup_job { id = codes "b2"; flow = codes "report"; created_at = 9 }

abbrev pub ended_job : Job
ended_job = record report_job { ended_at = some 20; exit_code = some 0 }

abbrev pub jobs_queue : FileQueue (Option Job)
jobs_queue = record {
  base_dir = codes "q";
  codec = value_codec Job;
  done_retention = 100;
  failed_retention = 100;
}

abbrev pub waiting : Job → FilePath × Option Job
waiting job = (job_path jobs_queue pending (job_filename job), some job)

-- Two pending jobs, of which the one that was made later stands first on the disk.
abbrev pub two_jobs : List (FilePath × Option Job)
two_jobs = waiting report_job ∷ waiting backup_job ∷ []
