-- ===== src/Examples/Due.antt =====
-- A witness for an entry that is due, on a disk that holds schedules and jobs.
use yafe.Names.{validate_flow_name, matches_name, validate_schedule_name}
use yafe.Prelude.{◌≡◌, ◌≢◌, ◌⊎◌, inl, inr, refl, true, none, some, [], ◌∷◌, arith}
use yafe.Text.{text_eq, is_empty, trim_space, codes}
use yafe.Disk.{path_eq, find, Disk, working, at}
use yafe.Job.{Job, Codec, pending, job_filename}
use yafe.Queue.{FileQueue, status_dir, job_path, enqueue}
use yafe.Queue.Enqueue.{new_job}
use yafe.Schedule.{Schedule}
use yafe.Schedule.Store.{FileStore, schedule_path}
use yafe.Schedule.Store.Laws.{view}
use yafe.Scheduler.Cycle.{schedule_job}
use yafe.Scheduler.Cycle.Due.{schedule_job_due}
use yafe.Examples.Schedules.{hourly}

abbrev job_codec : Codec Job (Job ⊎ Schedule)
job_codec = record {
  encode = λ job. inl job;
  decode = λ c. elim c [ inl job ↦ some job | inr schedule ↦ none ];
  decode-encode = λ job. refl;
}

abbrev schedule_codec : Codec Schedule (Job ⊎ Schedule)
schedule_codec = record {
  encode = λ schedule. inr schedule;
  decode = λ c. elim c [ inl job ↦ none | inr schedule ↦ some schedule ];
  decode-encode = λ schedule. refl;
}

abbrev mixed_queue : FileQueue (Job ⊎ Schedule)
mixed_queue = record {
  base_dir = codes "q";
  codec = job_codec;
  done_retention = 0;
  failed_retention = 0;
}

abbrev mixed_store : FileStore (Job ⊎ Schedule)
mixed_store = record { dir = codes "s"; codec = schedule_codec }

abbrev one_schedule : Disk (Job ⊎ Schedule)
one_schedule = working ((schedule_path mixed_store (codes "hourly"), inr hourly) ∷ [])

dirs_differ : status_dir mixed_queue pending ≢ mixed_store.dir
dirs_differ e = ground (arith, e)

schedule_job_due_example :
    let after =
      (schedule_job mixed_store
        (enqueue mixed_queue (λ name. true) 8 (codes "d4"))
        9
        (codes "hourly")
        one_schedule).1 in
    let job = new_job 8 (codes "d4") (codes "backup") [] in
    (at after (job_path mixed_queue pending (job_filename job)) ≡ some (inl job))
    × (view mixed_store after (codes "hourly") ≡ some (record hourly { last_run_at = some 9 }))
unfolding trim_space validate_schedule_name is_empty matches_name find path_eq text_eq
    validate_flow_name
schedule_job_due_example =
    schedule_job_due mixed_queue mixed_store (λ name. true) 8 9 (codes "d4") (codes "hourly") hourly
      one_schedule refl dirs_differ refl refl refl refl refl refl
