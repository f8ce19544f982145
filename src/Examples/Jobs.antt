-- ===== src/Examples/Jobs.antt =====
-- Witnesses for the queue and the worker.
use yafe.Prelude.{arith, ◌≡◌, refl, true, false, Option, none, some, List, [], ◌∷◌, inr}
use yafe.Text.{codes, has_suffix, text_lt, text_eq, trim_space, is_empty, after_first, trim_suffix}
use yafe.Result.{ok, err, io_failure, malformed, wrapped}
use yafe.Disk.{FilePath, Disk, works, working, at, find, names_in, fails, path_eq, replace_file}
use yafe.Job.{Job, pending, running, done, job_filename, decimal, filename_id}
use yafe.Job.Filename.{filename_id-job_filename, has_suffix-job_filename}
use yafe.Names.{validate_flow_name, matches_name}
use yafe.Queue.{job_path, started, ended, dequeue, move_job, enqueue}
use yafe.Queue.Dequeue.{dequeue_fifo, dequeue_malformed}
use yafe.Queue.Claim.{claimable, pending_names, pending-ne-running}
use yafe.Queue.Move.{move_job_atomic}
use yafe.Queue.Enqueue.{enqueue_atomic, new_job}
use yafe.Queue.Find.Located.{ActsOn, get_and_delete_located}
use yafe.Queue.Find.{get_job, names_job}
use yafe.Queue.Cleanup.{cleanup_status}
use yafe.Queue.Cleanup.Expiry.{cleanup_status_exact}
use yafe.Worker.{Worker, process_next, drain_queue}
use yafe.Worker.Drained.{Stopped, drain_queue-Stopped}
use yafe.Worker.Finish.{process_next_ends}
use yafe.Server.Jobs.{handle_enqueue}
use yafe.Server.Jobs.Stored.{queue_jobs, enqueue_answers}
use yafe.Examples.{backup_job, report_job, ended_job, jobs_queue, two_jobs, waiting}

backup_claimable :
    claimable (λ name. false) (pending_names jobs_queue two_jobs) ≡ some (job_filename backup_job)
unfolding names_in has_suffix job_filename text_lt decimal
backup_claimable = refl

backup_found :
    find (job_path jobs_queue pending (job_filename backup_job)) two_jobs ≡ some (some backup_job)
unfolding find job_filename path_eq text_eq decimal
backup_found = refl

dequeue_fifo_example :
    (dequeue jobs_queue (λ name. false) 12 (working two_jobs)).0 ≡ ok (some (started 12 backup_job))
dequeue_fifo_example =
    (dequeue_fifo jobs_queue (λ name. false) 12 two_jobs (job_filename backup_job) (some backup_job)
      backup_job backup_claimable backup_found refl).0

-- A pending file whose contents are malformed.
abbrev broken : List (FilePath × Option Job)
broken = (job_path jobs_queue pending (job_filename backup_job), none) ∷ waiting report_job ∷ []

broken-claimable :
    claimable (λ name. false) (pending_names jobs_queue broken) ≡ some (job_filename backup_job)
unfolding names_in has_suffix job_filename text_lt decimal
broken-claimable = refl

broken_found : find (job_path jobs_queue pending (job_filename backup_job)) broken ≡ some none
unfolding find job_filename path_eq text_eq decimal
broken_found = refl

dequeue_malformed_example :
    dequeue jobs_queue (λ name. false) 12 (working broken)
    ≡ (err (wrapped malformed), working broken)
dequeue_malformed_example =
    dequeue_malformed jobs_queue (λ name. false) 12 broken (job_filename backup_job) none
      broken-claimable broken_found refl

-- A disk on which the second call, the rename into place, fails.
abbrev failing : Disk (Option Job)
failing = record { files = two_jobs; outcomes = works ∷ fails ∷ [] }

-- The move fails and leaves the job where it was.
move_job_atomic_example :
    let after =
      (move_job jobs_queue pending running
        (job_filename backup_job)
        (started 12 backup_job)
        failing).1 in
    (at after (job_path jobs_queue pending (job_filename backup_job))
      ≡ at failing (job_path jobs_queue pending (job_filename backup_job)))
    × (at after (job_path jobs_queue running (job_filename backup_job))
        ≡ at failing (job_path jobs_queue running (job_filename backup_job)))
unfolding move_job replace_file
move_job_atomic_example =
    (move_job_atomic jobs_queue pending running (job_filename backup_job) (started 12 backup_job)
        failing pending-ne-running (has_suffix-job_filename backup_job)).1
      (wrapped io_failure) refl

enqueue_atomic_example :
    let path =
      job_path jobs_queue pending (job_filename (new_job 30 (codes "c3") (codes "backup") [])) in
    at (enqueue jobs_queue (λ name. true) 30 (codes "c3") (codes "backup") [] failing).1 path
    ≡ at failing path
unfolding enqueue validate_flow_name is_empty trim_space matches_name replace_file
enqueue_atomic_example =
    (enqueue_atomic jobs_queue (λ name. true) 30 (codes "c3") (codes "backup") [] failing).1
      (wrapped io_failure) refl

get_and_delete_located_example : ActsOn jobs_queue two_jobs (codes "b2")
get_and_delete_located_example = get_and_delete_located jobs_queue two_jobs (codes "b2")

-- The test of the id, and what the methods do for the second job.
takes_no_other : names_job (codes "a1") (job_filename report_job) ≡ false
unfolding job_filename decimal names_job filename_id has_suffix after_first trim_suffix text_eq
takes_no_other = refl

report_got :
    get_job jobs_queue (codes "b2") (working two_jobs)
    ≡ (ok (report_job, pending), working two_jobs)
unfolding get_job names_in find text_eq text_lt job_filename decimal names_job filename_id
    has_suffix after_first trim_suffix path_eq
report_got = refl

-- A job that ended, and one that did but whose retention is not over.
abbrev ended_jobs : List (FilePath × Option Job)
ended_jobs =
    (job_path jobs_queue done (job_filename ended_job), some ended_job)
    ∷ (job_path jobs_queue done (job_filename backup_job), some (ended 450 0 backup_job))
    ∷ []

ended_found :
    find (job_path jobs_queue done (job_filename ended_job)) ended_jobs ≡ some (some ended_job)
unfolding find job_filename path_eq text_eq decimal
ended_found = refl

-- The retention of the first one is over.
cleanup_status_exact_example :
    at
      (cleanup_status jobs_queue 500 done 100 (working ended_jobs)).1
      (job_path jobs_queue done (job_filename ended_job))
    ≡ none
cleanup_status_exact_example =
    ((cleanup_status_exact jobs_queue 500 done 100 ended_jobs).1 (job_filename ended_job)
        (some ended_job) (has_suffix-job_filename ended_job) ended_found).0.1
      (ended_job, 20, refl, refl, omega arith)

filename_id-job_filename_example : filename_id (job_filename backup_job) ≡ some (codes "a1")
filename_id-job_filename_example = filename_id-job_filename backup_job

abbrev one_worker : Worker (Option Job) (Unit {0})
one_worker = record {
  queue = jobs_queue;
  engine = record { load = λ name. inr tt; run = λ flow inputs. (none, none) };
  error_text = λ e. [];
  empty_file = none;
  held = λ name. false;
}

process_next_ends_example : (process_next one_worker 12 15 (working two_jobs)).0 ≡ ok true
process_next_ends_example =
    (process_next_ends one_worker 15 12 two_jobs (some backup_job) backup_job backup_claimable
      backup_found refl).0

drain_queue-Stopped_example :
    Stopped one_worker
      (λ k. k)
      (λ k. k)
      (λ k. false)
      3
      (drain_queue one_worker (λ k. k) (λ k. k) (λ k. false) 3 (working two_jobs))
unfolding names_in text_eq text_lt job_filename decimal
drain_queue-Stopped_example =
    drain_queue-Stopped one_worker (λ k. k) (λ k. k) (λ k. false) 3 (working two_jobs) refl
      (omega arith)

enqueue_answers_example :
    (handle_enqueue
      (λ e. [])
      (queue_jobs jobs_queue (λ c. []) (λ name. true) 30 (codes "c3"))
      (some (record { flow = codes "backup"; inputs = [] }))
      (working two_jobs)).0.code
    ≡ 202
unfolding is_empty validate_flow_name trim_space matches_name
enqueue_answers_example =
    (enqueue_answers jobs_queue (λ c. []) (λ name. true) 30 (codes "c3") (λ e. [])
      (record { flow = codes "backup"; inputs = [] }) (working two_jobs) refl).0
