-- ===== src/Job.antt =====
-- `Job` and `JobStatus` of internal/queue, and the names of job files. Instants are counted in
-- nanoseconds from 1970.
pub mod Filename
use yafe.Prelude.{
  ℕ, zero, suc, ◌+◌, ◌/◌, ◌%◌, ◌≡◌, Bool, Option, none, some, List, [], ◌∷◌, ◌++◌, ltb,
  if◌then◌else◌,
}
use yafe.Text.{Text, codes, text_eq, has_suffix, trim_suffix, after_first}

pub record Job : Type 0 where
  pub id : Text
  pub flow : Text
  pub inputs : List (Text × Text)
  pub created_at : ℕ
  pub started_at : Option ℕ
  pub ended_at : Option ℕ
  pub error : Text
  pub exit_code : Option ℕ

pub data JobStatus : Type 0 where
  pending running done failed : JobStatus

-- `JobStatusValues`
abbrev pub job_status_values : List JobStatus
job_status_values = pending ∷ running ∷ done ∷ failed ∷ []

-- `JobStatus.String`
abbrev pub status_text : JobStatus → Text
status_text pending = codes "pending"
status_text running = codes "running"
status_text done = codes "done"
status_text failed = codes "failed"

-- `ParseJobStatus`
unfoldable pub parse_job_status : Text → Option JobStatus
unfolding text_eq
parse_job_status name =
    if text_eq name (codes "pending")
    then some pending
    else if text_eq name (codes "running")
    then some running
    else if text_eq name (codes "done")
    then some done
    else if text_eq name (codes "failed")
    then some failed
    else none

-- The digits of `%d`, in front of those already written; the fuel is more than the digits.
decimal_before : ℕ → ℕ → Text → Text
decimal_before zero n acc = acc
decimal_before (suc fuel) n acc = elim (ltb n 10) [
  | Bool.true ↦ (n + b'0') ∷ acc
  | Bool.false ↦ decimal_before fuel (n / 10) ((n % 10 + b'0') ∷ acc)
]

unfoldable pub decimal : ℕ → Text
unfolding decimal_before
decimal n = decimal_before (suc n) n []

abbrev pub json_suffix : Text
json_suffix = codes ".json"

-- `jobFilename`
unfoldable pub job_filename : Job → Text
job_filename job = decimal job.created_at ++ (b'-' ∷ (job.id ++ json_suffix))

-- What `GetJob` and `DeleteJob` read as the job's id: the part after the first hyphen.
unfoldable pub filename_id : Text → Option Text
filename_id name =
    if has_suffix name json_suffix
    then elim (after_first b'-' name) [
      | none ↦ none
      | some rest ↦ some (trim_suffix rest json_suffix)
    ]
    else none

-- `encoding/json` on one type of values, over an abstract type of file contents. Encoding cannot
-- fail for the values that the program stores, and decoding gives back what was encoded.
pub record Codec (A C : Type 0) : Type 0 where
  pub encode : A → C
  pub decode : C → Option A
  pub decode-encode : (a : A) → decode (encode a) ≡ some a
