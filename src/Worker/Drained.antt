-- ===== src/Worker/Drained.antt =====
-- `drainQueue` ends: every job that is taken leaves the pending directory.
use mathlib.Core.Path.{subst}
use yafe.Prelude.{
  ◌∷◌, In, All_at, ℕ, zero, suc, ◌≤◌, ◌<◌, ◌≡◌, ◌≢◌, refl, sym, ◌∙◌, ◌⊎◌, inl, inr, Bool, true,
  false, none, some, List, [], arith, Bool-cases, Option-cases,
}
use yafe.Text.{Text}
use yafe.Result.{Error, Result, ok, err, wrapped, malformed}
use yafe.Disk.{FilePath, Disk, working, find, put}
use yafe.Disk.Laws.{disk-working}
use yafe.Disk.Count.{count-put}
use yafe.Job.{Job, pending, running, job_filename}
use yafe.Job.Filename.{has_suffix-job_filename}
use yafe.Queue.{status_dir, job_path, log_file, started, move_job}
use yafe.Queue.Move.{move_job_works}
use yafe.Queue.Claim.{
  claimable, claimable-json, pending_names, pending_names-Present, pending-ne-running,
}
use yafe.Queue.Dequeue.{dequeue-none, dequeue_claims, dequeue_malformed}
use yafe.Queue.Remaining.{remaining, remaining-move_job, remaining-move_job_pending, logs_differ}
use yafe.Worker.{Worker, process_job, process_next, drain_queue}
use yafe.Worker.Finish.{
  verdict, moved_on, moved_on-works, running-ne-verdict, pending-ne-verdict, process_job-move,
}

claimable-In :
    (held : Text → Bool) (names : List Text) (name : Text)
    → claimable held names ≡ some name
    → In name names
claimable-In held [] name h = absurd (ground arith)
claimable-In held (n ∷ names) name h = ground (arith, claimable-In held names name)

module _ {C F : Type 0} (w : Worker C F) where
  remaining-moved_on :
      (finish : ℕ) (job : Job) (disk : Disk C) (works : disk.outcomes ≡ [])
      → remaining w.queue (moved_on w finish job disk works) ≤ remaining w.queue disk
  unfolding moved_on
  remaining-moved_on finish job disk works = grind (
    arith,
    count-put (status_dir w.queue pending) (log_file w.queue job.id) w.empty_file disk.files
        (logs_differ w.queue job.id pending),
    λ (output : C).
        count-put (status_dir w.queue pending) (log_file w.queue job.id) output
          (put (log_file w.queue job.id) w.empty_file disk.files)
          (logs_differ w.queue job.id pending),
  )

  -- A job that is processed leaves no more pending files than there were, and calls go on to work.
  remaining-process_job :
      (finish : ℕ) (job : Job) (disk : Disk C)
      → disk.outcomes ≡ []
      → let (result, after) = process_job w finish job disk in
        (result ≡ ok tt)
        × (remaining w.queue after ≤ remaining w.queue disk)
        × (after.outcomes ≡ [])
  remaining-process_job finish job disk works =
      let on = moved_on w finish job disk works in
      let on_works = moved_on-works w finish job disk works in
      let (status, last) = verdict w finish job in
      let name = job_filename job in
      let fewer =
        remaining-move_job w.queue running status name last on on_works
          (λ e. pending-ne-verdict w finish job disk works (sym e)) in
      let moved =
        move_job_works w.queue running status name last on
          (running-ne-verdict w finish job disk works) (has_suffix-job_filename job) on_works in
      let before = remaining-moved_on finish job disk works in
      subst
        (λ (r : Result (Unit {0}) × Disk C).
          (r.0 ≡ ok tt) × (remaining w.queue r.1 ≤ remaining w.queue disk) × (r.1.outcomes ≡ []))
        (sym (process_job-move w finish job disk works))
        (moved.0, omega (arith, fewer, before), moved.1)

  -- Either a job was processed, and there are fewer pending files, or nothing happened.
  abbrev NextOf : Disk C → Result Bool × Disk C → Type 0
  NextOf disk (result, after) =
      ((result ≡ ok true)
        × (suc (remaining w.queue after) ≤ remaining w.queue disk)
        × (after.outcomes ≡ []))
      ⊎ (((result ≡ ok false) ⊎ ((e : Error) × (result ≡ err e))) × (after ≡ disk))

  process_next-claims :
      (start finish : ℕ) (files : List (FilePath × C)) (name : Text) (c : C) (job : Job)
      → claimable w.held (pending_names w.queue files) ≡ some name
      → find (job_path w.queue pending name) files ≡ some c
      → w.queue.codec.decode c ≡ some job
      → NextOf (working files) (process_next w start finish (working files))
  unfolding process_next
  process_next-claims start finish files name c job free found good =
      let claimed = started start job in
      let json = claimable-json w.held (pending_names w.queue files) name free in
      let next = (move_job w.queue pending running name claimed (working files)).1 in
      let moved =
        move_job_works w.queue pending running name claimed (working files) pending-ne-running json
          refl in
      let left =
        remaining-move_job_pending w.queue pending running name claimed (working files) refl
          (λ e. pending-ne-running (sym e)) refl json (λ e. absurd (ground arith)) in
      let ends = remaining-process_job finish claimed next moved.1 in
      let claims = dequeue_claims w.queue w.held start files name c job free found good in
      let whole : process_next w start finish (working files)
          ≡ (ok true, (process_job w finish claimed next).1) =
        ground (arith, claims, ends.0) in
      subst (λ r. NextOf (working files) r) (sym whole)
        (inl (refl, omega (arith, left, ends.1), ends.2))

  process_next-NextOf :
      (start finish : ℕ) (files : List (FilePath × C))
      → NextOf (working files) (process_next w start finish (working files))
  unfolding process_next
  process_next-NextOf start finish files =
      elim (Option-cases (claimable w.held (pending_names w.queue files))) [
        | inl free ↦
            let claims = dequeue-none w.queue w.held start files free in
            inr (inl (ground arith), ground arith)
        | inr (name, free) ↦ elim (Option-cases (find (job_path w.queue pending name) files)) [
          | inl gone ↦ absurd (
              All_at (λ n. find (job_path w.queue pending n) files ≢ none) name
                (pending_names w.queue files) (pending_names-Present w.queue files)
                (claimable-In w.held (pending_names w.queue files) name free) gone)
          | inr (c, found) ↦ elim (Option-cases (w.queue.codec.decode c)) [
            | inl bad ↦
                let claims = dequeue_malformed w.queue w.held start files name c free found bad in
                inr (inr (wrapped (wrapped malformed), ground arith), ground arith)
            | inr (job, good) ↦ process_next-claims start finish files name c job free found good
          ]
        ]
      ]

  module _ (starts finishes : ℕ → ℕ) (cancelled : ℕ → Bool) where
    -- The loop is at its end: the context is done, no job is free, or the queue fails.
    abbrev pub Stopped : ℕ → Disk C → Type 0
    Stopped fuel disk =
        (k : ℕ) × (k < fuel)
        × ((cancelled k ≡ true)
            ⊎ (((process_next w (starts k) (finishes k) disk).0 ≡ ok false)
                ⊎ ((e : Error) × ((process_next w (starts k) (finishes k) disk).0 ≡ err e))))

    drain_again :
        (fuel : ℕ) (disk : Disk C)
        → cancelled fuel ≡ false
        → (process_next w (starts fuel) (finishes fuel) disk).0 ≡ ok true
        → drain_queue w starts finishes cancelled (suc fuel) disk
          ≡ drain_queue w starts finishes cancelled fuel
              (process_next w (starts fuel) (finishes fuel) disk).1
    unfolding drain_queue
    drain_again fuel disk h e = rw (drain_queue, h, e) refl

    drain_stops :
        (fuel : ℕ) (disk : Disk C)
        → cancelled fuel ≡ false
        → ((process_next w (starts fuel) (finishes fuel) disk).0 ≡ ok false)
          ⊎ ((e : Error) × ((process_next w (starts fuel) (finishes fuel) disk).0 ≡ err e))
        → drain_queue w starts finishes cancelled (suc fuel) disk
          ≡ (process_next w (starts fuel) (finishes fuel) disk).1
    unfolding drain_queue
    drain_stops fuel disk h (inl e) = rw (drain_queue, h, e) refl
    drain_stops fuel disk h (inr (c, e)) = rw (drain_queue, h, e) refl

    -- Where every call works and there is fuel for more jobs than there are pending files, the fuel
    -- does not run out: `drainQueue` ends because the context is done, or because another call of
    -- `processNext` would find no free job, or would fail.
    pub drain_queue-Stopped :
        (fuel : ℕ) (disk : Disk C)
        → disk.outcomes ≡ []
        → remaining w.queue disk < fuel
        → Stopped fuel (drain_queue w starts finishes cancelled fuel disk)
    drain_queue-Stopped zero disk works enough = absurd (omega arith)
    drain_queue-Stopped (suc fuel) disk works enough = elim (Bool-cases (cancelled fuel)) [
      | inl h ↦ (fuel, omega arith, inl h)
      | inr h ↦
          elim (subst (λ d. NextOf d (process_next w (starts fuel) (finishes fuel) d))
            (sym (disk-working disk works))
            (process_next-NextOf (starts fuel) (finishes fuel) disk.files)) [
              | inl (e, fewer, works') ↦
                  let (k, lt, why) =
                    drain_queue-Stopped fuel (process_next w (starts fuel) (finishes fuel) disk).1
                      works' (omega (arith, fewer)) in
                  subst (λ d. Stopped (suc fuel) d) (sym (drain_again fuel disk h e))
                    (k, omega arith, why)
              | inr (why, same) ↦
                  subst (λ d. Stopped (suc fuel) d) (sym (drain_stops fuel disk h why ∙ same))
                    (fuel, omega arith, inr why)
            ]
    ]
