-- ===== src/Queue/Workers/Alone.antt =====
-- The steps of a worker that is not interrupted are `tryClaimJob`.
use yafe.Prelude.{ℕ, ◌≡◌, ◌≢◌, refl, false, none, some, List, arith}
use yafe.Text.{Text}
use yafe.Result.{ok}
use yafe.Disk.{FilePath, working, temporary, find, write_file, rename, replace_file, remove}
use yafe.Disk.Laws.{find-put, path_eq_iff}
use yafe.Job.{Job, pending, running}
use yafe.Queue.{FileQueue, job_path, started, try_claim_job, move_job}
use yafe.Queue.Workers.{
  opened, locked, checked, loaded, written, stored, removed, claimed, Workers, goes, with_files,
  with_lock, open_there, take_lock, check, load, write, store, take_away, unlock, Reach, here, next,
  begun,
}

module _ {C : Type 0} (q : FileQueue C) (filename : Text) (now : ℕ → ℕ) (i : ℕ) (c : C) (job : Job)
    (files : List (FilePath × C)) where
  abbrev opens : Workers C
  opens = goes q filename now (begun q filename now files) i opened

  abbrev locks : Workers C
  locks = goes q filename now (with_lock q filename now opens (some i)) i locked

  abbrev checks : Workers C
  checks = goes q filename now locks i checked

  abbrev the_job : Job
  the_job = started (now i) job

  abbrev loads : Workers C
  loads = goes q filename now checks i (loaded the_job)

  abbrev writes : Workers C
  writes =
      goes q filename now
        (with_files q filename now loads
          (write_file (temporary (job_path q running filename)) (q.codec.encode the_job)
            (working files)).1.files)
        i (written the_job)

  abbrev stores : Workers C
  stores =
      goes q filename now
        (with_files q filename now writes
          (rename (temporary (job_path q running filename)) (job_path q running filename)
            (working writes.files)).1.files)
        i (stored the_job)

  -- The two calls of `moveJob` on the new file.
  replaced :
      replace_file (job_path q running filename) (q.codec.encode the_job) (working files)
      ≡ (ok tt, working stores.files)
  unfolding replace_file write_file rename
  replaced = grind (arith, find-put, path_eq_iff)

  temporary_there : find (temporary (job_path q running filename)) writes.files ≢ none
  unfolding write_file
  temporary_there = grind (arith, find-put, path_eq_iff)

  abbrev removes : Workers C
  removes =
      goes q filename now
        (with_files q filename now stores
          (remove (job_path q pending filename) (working stores.files)).1.files)
        i (removed the_job)

  abbrev pub claims : Workers C
  claims = goes q filename now (with_lock q filename now removes none) i (claimed the_job)

  -- A worker that no other interrupts comes to the claim, and leaves the files that `tryClaimJob`
  -- leaves, which returns the job.
  pub claims_alone :
      find (job_path q pending filename) files ≡ some c
      → q.codec.decode c ≡ some job
      → Reach q filename now (begun q filename now files) claims
        × (claims.phase i ≡ claimed the_job)
        × (try_claim_job q (λ _. false) (now i) filename (working files)
            ≡ (ok (some the_job), working claims.files))
  unfolding try_claim_job move_job
  claims_alone there decoded = (
    next
        (next
          (next
            (next
              (next
                (next
                  (next (next here (open_there (begun q filename now files) i refl (ground arith)))
                    (take_lock opens i (ground arith) refl))
                  (check locks i (ground arith) (ground arith)))
                (load checks i c job (ground arith) there decoded))
              (write loads i the_job (ground arith)))
            (store writes i the_job (ground arith) temporary_there))
          (take_away stores i the_job (ground arith)))
        (unlock removes i the_job (ground arith)),
    ground arith,
    ground (arith, replaced),
  )
