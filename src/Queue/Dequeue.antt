-- ===== src/Queue/Dequeue.antt =====
-- `Dequeue` on a disk where every call works: the job with the least file name is claimed, and a
-- malformed file in front of the others stops the queue.
use yafe.Prelude.{ℕ, ◌≡◌, ◌≢◌, Bool, true, false, none, some, List, refl, ap, ◌∙◌}
use yafe.Text.{Text, text_lt, has_suffix}
use yafe.Result.{ok, err, wrapped, malformed}
use yafe.Disk.{FilePath, working, find, at}
use yafe.Disk.Listing.{In-names_in, names_in-Ascending}
use yafe.Job.{Job, pending, running, json_suffix}
use yafe.Queue.{FileQueue, status_dir, job_path, started, move_job, dequeue}
use yafe.Queue.Move.{move_job_works, move_job_atomic}
use yafe.Queue.Claim.{
  pending-ne-running, claimable, claimable-json, claimable-first, claim_first-none,
  claim_first-some, claim_first_malformed, pending_names, pending_names-Present,
}

module _ {C : Type 0} (q : FileQueue C) (held : Text → Bool) (now : ℕ)
    (files : List (FilePath × C)) where
  -- Where no pending job file is free, `Dequeue` returns no job and changes nothing.
  pub dequeue-none :
      claimable held (pending_names q files) ≡ none
      → dequeue q held now (working files) ≡ (ok none, working files)
  unfolding dequeue
  dequeue-none h =
      claim_first-none q held now files (pending_names q files) (pending_names-Present q files) h

  pub dequeue_claims :
      (name : Text) (c : C) (job : Job)
      → claimable held (pending_names q files) ≡ some name
      → find (job_path q pending name) files ≡ some c
      → q.codec.decode c ≡ some job
      → dequeue q held now (working files) ≡ (
        ok (some (started now job)),
        (move_job q pending running name (started now job) (working files)).1,
      )
  unfolding dequeue
  dequeue_claims name c job h k d =
      claim_first-some q held now files (pending_names q files) name c job
        (pending_names-Present q files) h k d

  -- On a disk where every call works, if the first free pending job file holds a job, `Dequeue`
  -- returns it with its start noted, and has moved it from `pending` to `running`; no free pending
  -- job file has a lesser name.
  pub dequeue_fifo :
      (name : Text) (c : C) (job : Job)
      → claimable held (pending_names q files) ≡ some name
      → find (job_path q pending name) files ≡ some c
      → q.codec.decode c ≡ some job
      → let (result, after) = dequeue q held now (working files) in
        (result ≡ ok (some (started now job)))
        × (at after (job_path q running name) ≡ some (q.codec.encode (started now job)))
        × (at after (job_path q pending name) ≡ none)
        × ((other : Text)
            → has_suffix other json_suffix ≡ true
            → held other ≡ false
            → find (job_path q pending other) files ≢ none
            → text_lt other name ≡ false)
  dequeue_fifo name c job h k d =
      let json = claimable-json held (pending_names q files) name h in
      let moved =
        move_job_works q pending running name (started now job) (working files) pending-ne-running
          json refl in
      let atomic =
        move_job_atomic q pending running name (started now job) (working files) pending-ne-running
          json in
      let claimed = dequeue_claims name c job h k d in
      (
        ap (λ r. r.0) claimed,
        ap (λ r. at r.1 (job_path q running name)) claimed ∙ atomic.0 moved.0,
        ap (λ r. at r.1 (job_path q pending name)) claimed ∙ moved.2,
        λ other suffix free there.
            claimable-first held (pending_names q files) name other
              (names_in-Ascending (status_dir q pending) files) h
              (In-names_in (status_dir q pending) other files there) suffix free,
      )

  -- On a disk where every call works, if the first free pending job file is malformed, `Dequeue`
  -- fails and changes nothing, so the jobs behind that file are never reached.
  pub dequeue_malformed :
      (name : Text) (c : C)
      → claimable held (pending_names q files) ≡ some name
      → find (job_path q pending name) files ≡ some c
      → q.codec.decode c ≡ none
      → dequeue q held now (working files) ≡ (err (wrapped malformed), working files)
  unfolding dequeue
  dequeue_malformed name c h k d =
      claim_first_malformed q held now files (pending_names q files) name c
        (pending_names-Present q files) h k d
