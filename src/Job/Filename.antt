-- ===== src/Job/Filename.antt =====
-- The name of a job's file gives back the job's id.
use mathlib.Core.List.{append_assoc}
use yafe.Prelude.{
  true, ap, ◌∙◌, sym, ℕ, zero, suc, ◌+◌, ◌≡◌, ◌≢◌, refl, ◌/◌, ◌%◌, some, [], ◌∷◌, ◌++◌, arith, All,
}
use yafe.Text.{Text, after_first, has_suffix}
use yafe.Text.Laws.{has_suffix-append, trim_suffix-append}
use yafe.Job.{Job, decimal_before, decimal, job_filename, json_suffix, filename_id}

abbrev Digits : Text → Type 0
Digits = All (λ c. c ≢ b'-')

decimal_before-Digits : (fuel n : ℕ) (acc : Text) → Digits acc → Digits (decimal_before fuel n acc)
unfolding decimal_before
decimal_before-Digits zero n acc h = h
decimal_before-Digits (suc fuel) n acc h =
    ground (arith, decimal_before-Digits fuel (n / 10) ((n % 10 + b'0') ∷ acc))

-- Nothing but digits stands before the first hyphen.
after_first-Digits : (s t : Text) → Digits s → after_first b'-' (s ++ b'-' ∷ t) ≡ some t
unfolding after_first
after_first-Digits [] t h = refl
after_first-Digits (c ∷ s) t h = ground (arith, after_first-Digits s t h.1)

job_filename_split :
    (job : Job) → job_filename job ≡ (decimal job.created_at ++ (b'-' ∷ job.id)) ++ json_suffix
unfolding job_filename
job_filename_split job = sym (append_assoc (decimal job.created_at) (b'-' ∷ job.id) json_suffix)

decimal-Digits : (n : ℕ) → Digits (decimal n)
unfolding decimal
decimal-Digits n = decimal_before-Digits (suc n) n [] tt

after_first-job_filename :
    (job : Job) → after_first b'-' (job_filename job) ≡ some (job.id ++ json_suffix)
unfolding job_filename
after_first-job_filename job =
    after_first-Digits (decimal job.created_at) (job.id ++ json_suffix)
      (decimal-Digits job.created_at)

-- `GetJob` and `DeleteJob` find in the name of a job's file the id of that job.
pub filename_id-job_filename : (job : Job) → filename_id (job_filename job) ≡ some job.id
unfolding filename_id
filename_id-job_filename job =
    let split = job_filename_split job in
    let stem = decimal job.created_at ++ (b'-' ∷ job.id) in
    let found =
      ap (λ name. has_suffix name json_suffix) split ∙ has_suffix-append stem json_suffix in
    rw (found, after_first-job_filename job, trim_suffix-append job.id json_suffix) refl

pub has_suffix-job_filename : (job : Job) → has_suffix (job_filename job) json_suffix ≡ true
has_suffix-job_filename job =
    ap (λ name. has_suffix name json_suffix) (job_filename_split job)
    ∙ has_suffix-append (decimal job.created_at ++ (b'-' ∷ job.id)) json_suffix
