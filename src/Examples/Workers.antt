-- ===== src/Examples/Workers.antt =====
-- Witness for the workers that claim a job file at a time.
use yafe.Prelude.{◌≡◌, refl, none, some, Option, List, [], ◌∷◌}
use yafe.Text.{has_suffix, cut_suffix, text_eq}
use yafe.Disk.{FilePath, find, path_eq, replace_file, write_file, rename, put, without, remove}
use yafe.Job.{Job, job_filename, decimal}
use yafe.Queue.{started}
use yafe.Queue.Workers.{gave_up, Workers, goes, open_missing, pending_file, Reach, next, begun}
use yafe.Queue.Workers.Alone.{claims, claims_alone}
use yafe.Queue.Workers.Once.{claimed_once}
use yafe.Examples.{backup_job, jobs_queue, waiting}

abbrev one_file : List (FilePath × Option Job)
one_file = waiting backup_job ∷ []

-- The first worker claims the job, and the second one comes too late.
abbrev claimed_by_first : Workers (Option Job)
claimed_by_first =
    claims jobs_queue (job_filename backup_job) (λ i. 12) 0 (some backup_job) backup_job one_file

first_claims :
    Reach jobs_queue
      (job_filename backup_job)
      (λ i. 12)
      (begun jobs_queue (job_filename backup_job) (λ i. 12) one_file)
      claimed_by_first
unfolding find path_eq text_eq job_filename decimal
first_claims =
    (claims_alone jobs_queue (job_filename backup_job) (λ i. 12) 0 (some backup_job) backup_job
      one_file refl refl).0

nothing_left :
    pending_file jobs_queue (job_filename backup_job) (λ i. 12) claimed_by_first.files ≡ none
unfolding find path_eq text_eq job_filename decimal replace_file write_file rename put without
    remove
nothing_left = refl

abbrev second_late : Workers (Option Job)
second_late = goes jobs_queue (job_filename backup_job) (λ i. 12) claimed_by_first 1 gave_up

claimed_once_example :
    pending_file jobs_queue (job_filename backup_job) (λ i. 12) second_late.files ≡ none
unfolding has_suffix cut_suffix job_filename decimal
claimed_once_example =
    (claimed_once jobs_queue (job_filename backup_job) (λ i. 12) refl one_file second_late 0 1
      (started 12 backup_job) (started 12 backup_job)
      (next first_claims (open_missing claimed_by_first 1 refl nothing_left)) refl).1
