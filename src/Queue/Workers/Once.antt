-- ===== src/Queue/Workers/Once.antt =====
-- No job file is claimed twice, however the calls of the workers interleave.
use yafe.Prelude.{ℕ, ◌≡◌, ◌≢◌, refl, ◌||◌, ◌∙◌, Option, Bool, true, false, none, some, List, arith}
use yafe.Text.{Text, has_suffix}
use yafe.Disk.{FilePath, working, temporary, write_file, rename, remove}
use yafe.Disk.Laws.{find-put, find-without, path_eq_iff, path_eq_refl}
use yafe.Job.{json_suffix, Job, pending, running}
use yafe.Queue.{FileQueue, job_path, started}
use yafe.Queue.Paths.{job_path-ne-temporary, statuses_differ}
use yafe.Queue.Claim.{pending-ne-running}
use yafe.Queue.Workers.{
  Phase, idle, opened, locked, checked, loaded, written, stored, removed, gave_up, errored, claimed,
  Workers, moved, pending_file, Step, open_there, open_missing, take_lock, lock_taken, check,
  check_missing, load, load_malformed, load_missing, write, store, store_missing, take_away, unlock,
  elsewhere, Reach, here, next, begun,
}

-- The phases in which a worker has the lock, those in which it is about to take the file, and those
-- behind the removal.
abbrev pub holds_lock : Phase → Bool
holds_lock locked = true
holds_lock checked = true
holds_lock (loaded job) = true
holds_lock (written job) = true
holds_lock (stored job) = true
holds_lock (removed job) = true
holds_lock _ = false

abbrev is_taking : Phase → Bool
is_taking checked = true
is_taking (loaded job) = true
is_taking (written job) = true
is_taking (stored job) = true
is_taking _ = false

abbrev is_past : Phase → Bool
is_past (removed job) = true
is_past (claimed job) = true
is_past _ = false

module _ {C : Type 0} (q : FileQueue C) (filename : Text) (now : ℕ → ℕ)
    (json : has_suffix filename json_suffix ≡ true) where
  record Inv (w : Workers C) : Type 0 where
    holder : (i : ℕ) → holds_lock (w.phase i) ≡ true → w.lock ≡ some i
    gone : (i : ℕ) → is_past (w.phase i) ≡ true → pending_file q filename now w.files ≡ none
    alone : (i j : ℕ) → is_taking (w.phase i) ≡ true → is_past (w.phase j) ≡ false
    once : (i j : ℕ) → is_past (w.phase i) ≡ true → is_past (w.phase j) ≡ true → i ≡ j

  -- A worker that takes the file has the lock.
  taking_holds : (p : Phase) → is_taking p ≡ true → holds_lock p ≡ true
  taking_holds checked h = refl
  taking_holds (loaded job) h = refl
  taking_holds (written job) h = refl
  taking_holds (stored job) h = refl
  taking_holds idle h = ground arith
  taking_holds opened h = ground arith
  taking_holds locked h = ground arith
  taking_holds (removed job) h = ground arith
  taking_holds gave_up h = ground arith
  taking_holds errored h = ground arith
  taking_holds (claimed job) h = ground arith

  removed_now :
      (files : List (FilePath × C))
      → pending_file q filename now (remove (job_path q pending filename) (working files)).1.files
        ≡ none
  unfolding remove
  removed_now files =
      rw
        (
          find-without (job_path q pending filename) (job_path q pending filename) files,
          path_eq_refl (job_path q pending filename),
        )
        refl

  not_running : job_path q pending filename ≢ job_path q running filename
  not_running = statuses_differ q pending running filename filename pending-ne-running

  not_temporary : job_path q pending filename ≢ temporary (job_path q running filename)
  not_temporary = job_path-ne-temporary q pending running filename filename json

  -- The temporary file, and its renaming, leave the pending file as it is.
  written_kept :
      (job : Job) (files : List (FilePath × C))
      → pending_file q filename now
          (write_file
            (temporary (job_path q running filename))
            (q.codec.encode job)
            (working files)).1.files
        ≡ pending_file q filename now files
  unfolding write_file
  written_kept job files = grind (arith, find-put, path_eq_iff, not_temporary)

  renamed_kept :
      (files : List (FilePath × C))
      → pending_file q filename now
          (rename
            (temporary (job_path q running filename))
            (job_path q running filename)
            (working files)).1.files
        ≡ pending_file q filename now files
  unfolding rename
  renamed_kept files =
      grind (arith, find-put, find-without, path_eq_iff, not_temporary, not_running)

  taking_not_past : (p : Phase) → is_taking p ≡ true → is_past p ≡ false
  taking_not_past checked h = refl
  taking_not_past (loaded job) h = refl
  taking_not_past (written job) h = refl
  taking_not_past (stored job) h = refl
  taking_not_past idle h = refl
  taking_not_past opened h = refl
  taking_not_past locked h = refl
  taking_not_past (removed job) h = ground arith
  taking_not_past gave_up h = refl
  taking_not_past errored h = refl
  taking_not_past (claimed job) h = ground arith

  -- A worker goes to another phase. The phases of all stay exclusive, if nobody is past the removal where
  -- it is about to take the file, and if it was about to take it where it is past the removal.
  module _ (w : Workers C) (v : Inv w) (k : ℕ) (p : Phase)
      (free : is_taking p ≡ true → (j : ℕ) → is_past (w.phase j) ≡ false)
      (from : is_past p ≡ true → (is_taking (w.phase k) || is_past (w.phase k)) ≡ true) where
    alone_then :
        (i j : ℕ) → is_taking (moved k p w.phase i) ≡ true → is_past (moved k p w.phase j) ≡ false
    alone_then i j h =
        let at_j : is_taking p ≡ true → is_past (w.phase j) ≡ false = λ taking. free taking j in
        ground (
          arith,
          v.alone i j,
          v.alone i k,
          v.holder i,
          v.holder k,
          at_j,
          from,
          taking_not_past p,
          taking_holds (w.phase i),
          taking_holds (w.phase k),
        )

    once_then :
        (i j : ℕ)
        → is_past (moved k p w.phase i) ≡ true
        → is_past (moved k p w.phase j) ≡ true
        → i ≡ j
    once_then i j h g =
        ground (arith, v.once i j, v.alone k j, v.alone k i, v.once k j, v.once i k, from)

    goes-Inv :
        (lock : Option ℕ) (files : List (FilePath × C))
        → ((i : ℕ) → holds_lock (moved k p w.phase i) ≡ true → lock ≡ some i)
        → ((i : ℕ)
            → is_past (moved k p w.phase i) ≡ true
            → pending_file q filename now files ≡ none)
        → Inv (record { files = files; lock = lock; phase = moved k p w.phase })
    goes-Inv lock files h g = record { holder = h; gone = g; alone = alone_then; once = once_then }

  Step-Inv : {w v : Workers C} → Step q filename now w v → Inv w → Inv v
  Step-Inv (open_there w k at there) v =
      goes-Inv w v k opened (λ h j. ground (arith, v.alone k j, v.gone j)) (λ h. ground arith)
        w.lock w.files (λ i h. ground (arith, v.holder i, v.holder k))
        (λ i h. ground (arith, v.gone i, v.gone k))
  Step-Inv (open_missing w k at there) v =
      goes-Inv w v k gave_up (λ h j. ground (arith, v.alone k j, v.gone j)) (λ h. ground arith)
        w.lock w.files (λ i h. ground (arith, v.holder i, v.holder k))
        (λ i h. ground (arith, v.gone i, v.gone k))
  Step-Inv (take_lock w k at free) v =
      goes-Inv w v k locked (λ h j. ground (arith, v.alone k j, v.gone j)) (λ h. ground arith)
        (some k) w.files (λ i h. ground (arith, v.holder i, v.holder k))
        (λ i h. ground (arith, v.gone i, v.gone k))
  Step-Inv (lock_taken w k m at held) v =
      goes-Inv w v k gave_up (λ h j. ground (arith, v.alone k j, v.gone j)) (λ h. ground arith)
        w.lock w.files (λ i h. ground (arith, v.holder i, v.holder k))
        (λ i h. ground (arith, v.gone i, v.gone k))
  Step-Inv (check w k at there) v =
      goes-Inv w v k checked (λ h j. ground (arith, v.alone k j, v.gone j)) (λ h. ground arith)
        w.lock w.files (λ i h. ground (arith, v.holder i, v.holder k))
        (λ i h. ground (arith, v.gone i, v.gone k))
  Step-Inv (check_missing w k at there) v =
      goes-Inv w v k gave_up (λ h j. ground (arith, v.alone k j, v.gone j)) (λ h. ground arith) none
        w.files (λ i h. ground (arith, v.holder i, v.holder k))
        (λ i h. ground (arith, v.gone i, v.gone k))
  Step-Inv (load w k c job at there decoded) v =
      goes-Inv w v k (loaded (started (now k) job)) (λ h j. ground (arith, v.alone k j, v.gone j))
        (λ h. ground arith) w.lock w.files (λ i h. ground (arith, v.holder i, v.holder k))
        (λ i h. ground (arith, v.gone i, v.gone k))
  Step-Inv (load_malformed w k c at there decoded) v =
      goes-Inv w v k errored (λ h j. ground (arith, v.alone k j, v.gone j)) (λ h. ground arith) none
        w.files (λ i h. ground (arith, v.holder i, v.holder k))
        (λ i h. ground (arith, v.gone i, v.gone k))
  Step-Inv (load_missing w k at there) v =
      goes-Inv w v k errored (λ h j. ground (arith, v.alone k j, v.gone j)) (λ h. ground arith) none
        w.files (λ i h. ground (arith, v.holder i, v.holder k))
        (λ i h. ground (arith, v.gone i, v.gone k))
  Step-Inv (unlock w k job at) v =
      goes-Inv w v k (claimed job) (λ h j. ground (arith, v.alone k j, v.gone j))
        (λ h. ground arith) none w.files (λ i h. ground (arith, v.holder i, v.holder k))
        (λ i h. ground (arith, v.gone i, v.gone k))
  Step-Inv (write w k job at) v =
      goes-Inv w v k (written job) (λ h j. ground (arith, v.alone k j)) (λ h. ground arith) w.lock
        (write_file (temporary (job_path q running filename)) (q.codec.encode job)
          (working w.files)).1.files
        (λ i h. ground (arith, v.holder i, v.holder k))
        (λ i h. written_kept job w.files ∙ ground (arith, v.gone i, v.gone k))
  Step-Inv (store w k job at there) v =
      goes-Inv w v k (stored job) (λ h j. ground (arith, v.alone k j)) (λ h. ground arith) w.lock
        (rename (temporary (job_path q running filename)) (job_path q running filename)
          (working w.files)).1.files
        (λ i h. ground (arith, v.holder i, v.holder k))
        (λ i h. renamed_kept w.files ∙ ground (arith, v.gone i, v.gone k))
  Step-Inv (store_missing w k job at there) v =
      goes-Inv w v k errored (λ h j. ground (arith, v.alone k j)) (λ h. ground arith) none w.files
        (λ i h. ground (arith, v.holder i, v.holder k)) (λ i h. ground (arith, v.gone i, v.gone k))
  Step-Inv (take_away w k job at) v =
      goes-Inv w v k (removed job) (λ h j. ground arith) (λ h. ground arith) w.lock
        (remove (job_path q pending filename) (working w.files)).1.files
        (λ i h. ground (arith, v.holder i, v.holder k)) (λ i h. removed_now w.files)
  Step-Inv (elsewhere w files never) v = record {
    holder = v.holder;
    gone = λ i h. never (v.gone i h);
    alone = v.alone;
    once = v.once;
  }

  Reach-Inv : {w v : Workers C} → Reach q filename now w v → Inv w → Inv v
  Reach-Inv here v = v
  Reach-Inv (next r step) v = Step-Inv step (Reach-Inv r v)

  begun-Inv : (files : List (FilePath × C)) → Inv (begun q filename now files)
  begun-Inv files = record {
    holder = λ i h. ground arith;
    gone = λ i h. ground arith;
    alone = λ i j h. refl;
    once = λ i j h g. ground arith;
  }

  -- For a file name that ends in `.json`, and however the calls of any number of workers interleave with
  -- one another and with those of other processes, where a call fails only on a file that is missing and no
  -- other process puts another file where the pending one is or was: if a worker has claimed the job file, no other worker has, the pending file is
  -- gone, and at most one worker stands where it has the lock.
  pub claimed_once :
      (files : List (FilePath × C)) (w : Workers C) (i j : ℕ) (job other : Job)
      → Reach q filename now (begun q filename now files) w
      → w.phase i ≡ claimed job
      → (w.phase j ≡ claimed other → i ≡ j)
        × (pending_file q filename now w.files ≡ none)
        × ((m n : ℕ) → holds_lock (w.phase m) ≡ true → holds_lock (w.phase n) ≡ true → m ≡ n)
  claimed_once files w i j job other reached at_i =
      let v = Reach-Inv reached (begun-Inv files) in
      (
        λ at_j. v.once i j (ground arith) (ground arith),
        v.gone i (ground arith),
        λ m n h g. ground (arith, v.holder m h, v.holder n g),
      )
