-- ===== src/Queue/Move.antt =====
-- `moveJob`: a job is never lost on its way from one status to another.
use yafe.Prelude.{◌≡◌, ◌≢◌, true, none, some, [], arith}
use yafe.Text.{Text, has_suffix}
use yafe.Result.{Error, ok, err}
use yafe.Disk.{FilePath, Disk, at, temporary}
use yafe.Disk.Laws.{find-without, path_eq_iff}
use yafe.Disk.Atomic.{replace_file_ok, replace_file_err, replace_file_other, replace_file_works}
use yafe.Job.{Job, JobStatus, json_suffix}
use yafe.Queue.{FileQueue, job_path, move_job}
use yafe.Queue.Paths.{statuses_differ, job_path-ne-temporary}

module _ {C : Type 0} (q : FileQueue C) (source target : JobStatus) (filename : Text) where
  module _ (job : Job) (disk : Disk C) where
    move_ok :
        source ≢ target
        → (move_job q source target filename job disk).0 ≡ ok tt
        → at (move_job q source target filename job disk).1 (job_path q target filename)
          ≡ some (q.codec.encode job)
    unfolding move_job
    move_ok differ h = grind (
      arith,
      statuses_differ q source target filename filename differ,
      find-without,
      path_eq_iff,
      replace_file_ok,
    )

    move_err :
        source ≢ target
        → has_suffix filename json_suffix ≡ true
        → (e : Error) → (move_job q source target filename job disk).0 ≡ err e
        → (at (move_job q source target filename job disk).1 (job_path q source filename)
            ≡ at disk (job_path q source filename))
          × (at (move_job q source target filename job disk).1 (job_path q target filename)
              ≡ at disk (job_path q target filename))
    unfolding move_job
    move_err differ json e h = grind (
      arith,
      statuses_differ q source target filename filename differ,
      job_path-ne-temporary q source target filename filename json,
      replace_file_err,
      replace_file_other,
    )

    move_other :
        (p : FilePath)
        → p ≢ job_path q source filename
        → p ≢ job_path q target filename
        → p ≢ temporary (job_path q target filename)
        → at (move_job q source target filename job disk).1 p ≡ at disk p
    unfolding move_job
    move_other p h k t = grind (arith, find-without, path_eq_iff, replace_file_other)

    -- Whatever calls fail, a move of a job between two statuses that reports success has written
    -- the job whole under the new status, and one that reports an error has left the file as it was
    -- under both; no job file under a third place changes.
    pub move_job_atomic :
        source ≢ target
        → has_suffix filename json_suffix ≡ true
        → let (result, after) = move_job q source target filename job disk in
          (result ≡ ok tt → at after (job_path q target filename) ≡ some (q.codec.encode job))
          × ((e : Error)
              → result ≡ err e
              → (at after (job_path q source filename) ≡ at disk (job_path q source filename))
                × (at after (job_path q target filename) ≡ at disk (job_path q target filename)))
          × ((status : JobStatus) (other : Text)
              → has_suffix other json_suffix ≡ true
              → job_path q status other ≢ job_path q source filename
              → job_path q status other ≢ job_path q target filename
              → at after (job_path q status other) ≡ at disk (job_path q status other))
    move_job_atomic differ json = (
      move_ok differ,
      move_err differ json,
      λ status other suffix h k.
          move_other (job_path q status other) h k
            (job_path-ne-temporary q status target other filename suffix),
    )

    -- On a disk where every call works a move succeeds, and the job is gone from its old place.
    pub move_job_works :
        source ≢ target
        → has_suffix filename json_suffix ≡ true
        → disk.outcomes ≡ []
        → let (result, after) = move_job q source target filename job disk in
          (result ≡ ok tt) × (after.outcomes ≡ []) × (at after (job_path q source filename) ≡ none)
    unfolding move_job
    move_job_works differ json w = grind (
      arith,
      statuses_differ q source target filename filename differ,
      job_path-ne-temporary q source target filename filename json,
      find-without,
      path_eq_iff,
      replace_file_works,
      replace_file_other,
    )
