-- ===== src/Queue/Workers.antt =====
-- Several workers that try to claim one job file at a time, call by call (`tryClaimJob` of
-- internal/queue/queue.go). Between two calls of a worker any other worker may make its own, and other
-- processes may change any file in place or remove it. The kernel locks an open file and not a path, so
-- no other process may put another file where the pending one is or was. Every call works, except that
-- a file may be missing.
pub mod Once
pub mod Alone
use yafe.Prelude.{ℕ, ◌≡◌, ◌≢◌, Bool, true, false, Option, none, some, List, ◌==◌, if◌then◌else◌}
use yafe.Text.{Text}
use yafe.Result.{ok, err}
use yafe.Disk.{FilePath, working, find, temporary, write_file, rename, remove}
use yafe.Job.{Job, pending, running}
use yafe.Queue.{FileQueue, job_path, started}

-- Where a worker stands: before the call of `os.Open`, behind it, with the lock, behind the second look,
-- with the decoded job, behind the temporary file, behind the one in `running`, behind the removal; and
-- what the call returned.
pub data Phase : Type 0 where
  idle opened locked checked : Phase
  loaded written stored removed : Job → Phase
  gave_up errored : Phase
  claimed : Job → Phase

-- The files, the worker that holds the lock of the pending file, and where the workers stand.
pub record Workers (C : Type 0) : Type 0 where
  pub files : List (FilePath × C)
  pub lock : Option ℕ
  pub phase : ℕ → Phase

abbrev pub moved : ℕ → Phase → (ℕ → Phase) → ℕ → Phase
moved worker phase phases i = if worker == i then phase else phases i

module _ {C : Type 0} (q : FileQueue C) (filename : Text) (now : ℕ → ℕ) where
  abbrev pub pending_file : List (FilePath × C) → Option C
  pending_file files = find (job_path q pending filename) files

  abbrev pub running_path : FilePath
  running_path = job_path q running filename

  -- The worker goes to another phase, and nothing else changes.
  abbrev pub goes : Workers C → ℕ → Phase → Workers C
  goes w i phase = record w { phase = moved i phase w.phase }

  abbrev pub with_files : Workers C → List (FilePath × C) → Workers C
  with_files w files = record w { files = files }

  abbrev pub with_lock : Workers C → Option ℕ → Workers C
  with_lock w lock = record w { lock = lock }

  pub data Step : Workers C → Workers C → Type 0 where
    open_there :
        (w : Workers C) (i : ℕ)
        → w.phase i ≡ idle
        → pending_file w.files ≢ none
        → Step w (goes w i opened)
    open_missing :
        (w : Workers C) (i : ℕ)
        → w.phase i ≡ idle
        → pending_file w.files ≡ none
        → Step w (goes w i gave_up)
    -- `syscall.Flock` with `LOCK_NB`
    take_lock :
        (w : Workers C) (i : ℕ)
        → w.phase i ≡ opened
        → w.lock ≡ none
        → Step w (goes (with_lock w (some i)) i locked)
    lock_taken :
        (w : Workers C) (i k : ℕ) → w.phase i ≡ opened → w.lock ≡ some k → Step w (goes w i gave_up)
    -- the second look at the file
    check :
        (w : Workers C) (i : ℕ)
        → w.phase i ≡ locked
        → pending_file w.files ≢ none
        → Step w (goes w i checked)
    check_missing :
        (w : Workers C) (i : ℕ)
        → w.phase i ≡ locked
        → pending_file w.files ≡ none
        → Step w (goes (with_lock w none) i gave_up)
    -- `readJob`, and the time of the start
    load :
        (w : Workers C) (i : ℕ) (c : C) (job : Job)
        → w.phase i ≡ checked
        → pending_file w.files ≡ some c
        → q.codec.decode c ≡ some job
        → Step w (goes w i (loaded (started (now i) job)))
    load_malformed :
        (w : Workers C) (i : ℕ) (c : C)
        → w.phase i ≡ checked
        → pending_file w.files ≡ some c
        → q.codec.decode c ≡ none
        → Step w (goes (with_lock w none) i errored)
    load_missing :
        (w : Workers C) (i : ℕ)
        → w.phase i ≡ checked
        → pending_file w.files ≡ none
        → Step w (goes (with_lock w none) i errored)
    -- `moveJob`: the temporary file, its renaming to the file in `running`, and then the removal of the
    -- pending one
    write :
        (w : Workers C) (i : ℕ) (job : Job)
        → w.phase i ≡ loaded job
        → Step w (
            goes
              (with_files w
                (write_file
                  (temporary running_path)
                  (q.codec.encode job)
                  (working w.files)).1.files)
              i
              (written job))
    store :
        (w : Workers C) (i : ℕ) (job : Job)
        → w.phase i ≡ written job
        → find (temporary running_path) w.files ≢ none
        → Step w (
            goes
              (with_files w
                (rename (temporary running_path) running_path (working w.files)).1.files)
              i
              (stored job))
    store_missing :
        (w : Workers C) (i : ℕ) (job : Job)
        → w.phase i ≡ written job
        → find (temporary running_path) w.files ≡ none
        → Step w (goes (with_lock w none) i errored)
    take_away :
        (w : Workers C) (i : ℕ) (job : Job)
        → w.phase i ≡ stored job
        → Step w (
            goes
              (with_files w (remove (job_path q pending filename) (working w.files)).1.files)
              i
              (removed job))
    -- the lock is let go when the call returns
    unlock :
        (w : Workers C) (i : ℕ) (job : Job)
        → w.phase i ≡ removed job
        → Step w (goes (with_lock w none) i (claimed job))
    -- What other processes do. They change files in place, so that the lock of the pending file stays
    -- with its worker, or remove them; none puts another file in its place.
    elsewhere :
        (w : Workers C) (files : List (FilePath × C))
        → (pending_file w.files ≡ none → pending_file files ≡ none)
        → Step w (with_files w files)

  -- The states that are reached by steps.
  pub data Reach (w : Workers C) : Workers C → Type 0 where
    here : Reach w w
    next : {v u : Workers C} → Reach w v → Step v u → Reach w u

  -- No worker has begun.
  abbrev pub begun : List (FilePath × C) → Workers C
  begun files = record { files = files; lock = none; phase = λ i. idle }
