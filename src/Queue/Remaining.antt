-- ===== src/Queue/Remaining.antt =====
-- How many pending files are left after the calls of the queue, where every call works.
use yafe.Prelude.{sym, ℕ, suc, ◌≤◌, ◌≡◌, ◌≢◌, ap, ◌∙◌, true, none, [], arith}
use yafe.Text.{Text, has_suffix}
use yafe.Disk.{FilePath, Disk, at, replace_file}
use yafe.Disk.Atomic.{replace_file_works, replace_file_other}
use yafe.Disk.Count.{count, count-without, count-without_found, count-replace_file}
use yafe.Job.{Job, JobStatus, pending, json_suffix}
use yafe.Queue.{FileQueue, status_dir, job_path, log_file, move_job}
use yafe.Queue.Paths.{statuses_differ, job_path-ne-temporary, log_file-ne-job_path}

abbrev at_dir : Text → Text → FilePath
at_dir name dir = record { dir = dir; name = name }

module _ {C : Type 0} (q : FileQueue C) where
  pub dirs_differ : (a b : JobStatus) → a ≢ b → status_dir q a ≢ status_dir q b
  dirs_differ a b h e = statuses_differ q a b [] [] h (ap (at_dir []) e)

  pub logs_differ : (id : Text) (status : JobStatus) → (log_file q id).dir ≢ status_dir q status
  logs_differ id status e =
      log_file-ne-job_path q status (log_file q id).name id
        (ap (at_dir (log_file q id).name) (sym e))

  -- The number of pending files.
  abbrev pub remaining : Disk C → ℕ
  remaining disk = count (status_dir q pending) disk.files

  module _ (source target : JobStatus) (filename : Text) (job : Job) (disk : Disk C)
      (works : disk.outcomes ≡ []) (elsewhere : target ≢ pending) where
    pub remaining-move_job :
        remaining (move_job q source target filename job disk).1 ≤ remaining disk
    unfolding move_job
    remaining-move_job =
        let path = job_path q target filename in
        let c = q.codec.encode job in
        ground (
          arith,
          replace_file_works path c disk works,
          count-replace_file (status_dir q pending) path c disk works
              (dirs_differ target pending elsewhere),
          count-without (status_dir q pending) (job_path q source filename)
              (replace_file path c disk).1.files,
        )

    pub remaining-move_job_pending :
        source ≡ pending
        → has_suffix filename json_suffix ≡ true
        → at disk (job_path q source filename) ≢ none
        → suc (remaining (move_job q source target filename job disk).1) ≤ remaining disk
    unfolding move_job
    remaining-move_job_pending same json found =
        let path = job_path q target filename in
        let c = q.codec.encode job in
        let disk' = (replace_file path c disk).1 in
        let still =
          replace_file_other path c disk (job_path q source filename)
            (statuses_differ q source target filename filename (λ e. elsewhere (sym e ∙ same)))
            (job_path-ne-temporary q source target filename filename json) in
        ground (
          arith,
          replace_file_works path c disk works,
          still,
          count-replace_file (status_dir q pending) path c disk works
              (dirs_differ target pending elsewhere),
          count-without_found (status_dir q pending) (job_path q source filename) disk'.files
              (ap (status_dir q) same),
        )
