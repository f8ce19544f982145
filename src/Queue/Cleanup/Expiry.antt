-- ===== src/Queue/Cleanup/Expiry.antt =====
-- What a cleanup removes: exactly the finished jobs of a status whose retention is over.
use yafe.Prelude.{
  ℕ, ◌+◌, ◌<◌, ◌↔◌, ◌∙◌, ap, Option-cases, ◌≡◌, ◌≢◌, ◌⊎◌, inl, inr, sym, refl, true, Option, none,
  some, List, [], ◌∷◌, arith, In, if◌then◌else◌, Bool-cases,
}
use yafe.Text.{text_eq, Text, has_suffix}
use yafe.Text.Laws.{text_eq_iff}
use yafe.Result.{is_ok}
use yafe.Disk.{FilePath, Disk, at, working, find, names_in}
use yafe.Disk.Laws.{find-without, path_eq_iff}
use yafe.Disk.Listing.{find_of_unlisted}
use yafe.Job.{Job, JobStatus, json_suffix}
use yafe.Queue.{FileQueue, job_path, status_dir, log_file}
use yafe.Queue.Paths.{statuses_differ, filenames_differ, log_file-ne-job_path}
use yafe.Queue.Cleanup.{expired, cleanup_file, cleanup_files, cleanup_status}

module _ {C : Type 0} (q : FileQueue C) where
  -- What a cleanup leaves of a file.
  abbrev left_over : ℕ → ℕ → Option C → Option C
  left_over now retention none = none
  left_over now retention (some c) = elim (q.codec.decode c) [
    | none ↦ some c
    | some job ↦ if expired now retention job then none else some c
  ]

module _ {C : Type 0} (q : FileQueue C) (now retention : ℕ) (c : C) where
  -- The file holds a job that ended, and the retention is over since.
  abbrev pub IsOver : Type 0
  IsOver =
      (job : Job) × (instant : ℕ) × (q.codec.decode c ≡ some job)
      × (job.ended_at ≡ some instant)
      × (instant + retention < now)

  left_over_iff : (left_over q now retention (some c) ≡ none) ↔ IsOver
  unfolding expired
  left_over_iff = (
    (λ gone. elim (Option-cases (q.codec.decode c)) [
      | inl e ↦ absurd (ground (arith, e))
      | inr (job, e) ↦ elim (Option-cases job.ended_at) [
        | inl open_ended ↦ absurd (ground (arith, e, open_ended))
        | inr (instant, at_end) ↦ (job, instant, e, at_end, ground (arith, e, at_end))
      ]
    ]),
    (λ (job, instant, e, at_end, over). ground (arith, e, at_end, over)),
  )

  left_over_cases :
      (left_over q now retention (some c) ≡ none) ⊎ (left_over q now retention (some c) ≡ some c)
  left_over_cases = ground arith

module _ {C : Type 0} (q : FileQueue C) (now : ℕ) (status : JobStatus) (retention : ℕ) where
  -- A job file that holds after a cleanup what is left over of it.
  abbrev Settled : Disk C → Disk C → Text → Type 0
  Settled disk after filename =
      at after (job_path q status filename)
      ≡ left_over q now retention (at disk (job_path q status filename))

  left_over_idem :
      (found : Option C)
      → left_over q now retention (left_over q now retention found)
        ≡ left_over q now retention found
  left_over_idem found = ground arith

  module _ (filename : Text) (disk : Disk C) (w : disk.outcomes ≡ []) where
    cleanup_file-outcomes : (cleanup_file q now status retention filename disk).1.outcomes ≡ []
    unfolding cleanup_file
    cleanup_file-outcomes = grind arith

    cleanup_file-is_ok : is_ok (cleanup_file q now status retention filename disk).0 ≡ true
    unfolding cleanup_file
    cleanup_file-is_ok = ground arith

    cleanup_file-Settled :
        has_suffix filename json_suffix ≡ true
        → Settled disk (cleanup_file q now status retention filename disk).1 filename
    unfolding cleanup_file
    cleanup_file-Settled json =
        grind (arith, find-without, path_eq_iff, log_file-ne-job_path q status filename)

    cleanup_file-other :
        (p : FilePath)
        → p ≢ job_path q status filename
        → ((id : Text) → p ≢ log_file q id)
        → at (cleanup_file q now status retention filename disk).1 p ≡ at disk p
    unfolding cleanup_file
    cleanup_file-other p h k = grind (arith, find-without, path_eq_iff)

  cleanup_files-works :
      (names : List Text) (disk : Disk C)
      → disk.outcomes ≡ []
      → (is_ok (cleanup_files q now status retention names disk).0 ≡ true)
        × ((cleanup_files q now status retention names disk).1.outcomes ≡ [])
  unfolding cleanup_files
  cleanup_files-works [] disk w = (refl, w)
  cleanup_files-works (name ∷ names) disk w =
      let rest =
        cleanup_files-works names (cleanup_file q now status retention name disk).1
          (cleanup_file-outcomes name disk w) in
      ground (arith, cleanup_file-is_ok name disk w)

  cleanup_files-other :
      (names : List Text) (disk : Disk C)
      → disk.outcomes ≡ []
      → (other : JobStatus) (filename : Text) → other ≢ status
      → at (cleanup_files q now status retention names disk).1 (job_path q other filename)
        ≡ at disk (job_path q other filename)
  unfolding cleanup_files
  cleanup_files-other [] disk w other filename h = refl
  cleanup_files-other (name ∷ names) disk w other filename h =
      let next = (cleanup_file q now status retention name disk).1 in
      let rest =
        cleanup_files-other names next (cleanup_file-outcomes name disk w) other filename h in
      let same =
        cleanup_file-other name disk w (job_path q other filename)
          (statuses_differ q other status filename name h)
          (log_file-ne-job_path q other filename) in
      ground (
        arith,
        cleanup_file-is_ok name disk w,
        cleanup_files-works names next (cleanup_file-outcomes name disk w),
      )

  cleanup_file-settles :
      (name filename : Text) (disk : Disk C)
      → disk.outcomes ≡ []
      → has_suffix filename json_suffix ≡ true
      → Settled disk (cleanup_file q now status retention name disk).1 filename
        ⊎ ((name ≢ filename)
            × (at (cleanup_file q now status retention name disk).1 (job_path q status filename)
                ≡ at disk (job_path q status filename)))
  cleanup_file-settles name filename disk w json = elim (Bool-cases (text_eq name filename)) [
    | inl e ↦
        let same = (text_eq_iff name filename).0 e in
        inl (rw (← same) (cleanup_file-Settled name disk w (rw same json)))
    | inr e ↦
        let differ : name ≢ filename = λ same. cc (e, (text_eq_iff name filename).1 same) in
        inr (
          differ,
          cleanup_file-other name disk w (job_path q status filename)
              (filenames_differ q status status filename name (λ same. differ (sym same)))
              (log_file-ne-job_path q status filename),
        )
  ]

  -- After the loop a file that it has met holds what is left over, and any other holds that or
  -- what it held before.
  cleanup_files-settles :
      (names : List Text) (filename : Text) (disk : Disk C)
      → disk.outcomes ≡ []
      → has_suffix filename json_suffix ≡ true
      → Settled disk (cleanup_files q now status retention names disk).1 filename
        ⊎ ((¬ In filename names)
            × (at (cleanup_files q now status retention names disk).1 (job_path q status filename)
                ≡ at disk (job_path q status filename)))
  unfolding cleanup_files
  cleanup_files-settles [] filename disk w json = inr (λ m. m, refl)
  cleanup_files-settles (name ∷ names) filename disk w json =
      let next = (cleanup_file q now status retention name disk).1 in
      let w' = cleanup_file-outcomes name disk w in
      ground (
        arith,
        cleanup_file-settles name filename disk w json,
        cleanup_files-settles names filename next w' json,
        left_over_idem (at disk (job_path q status filename)),
        cleanup_file-is_ok name disk w,
        cleanup_files-works names next w',
      )

  module _ (files : List (FilePath × C)) where
    abbrev names : List Text
    names = names_in (status_dir q status) files

    status-Settled :
        (filename : Text)
        → has_suffix filename json_suffix ≡ true
        → Settled (working files) (cleanup_status q now status retention (working files)).1 filename
    unfolding cleanup_status
    status-Settled filename json =
        elim (cleanup_files-settles names filename (working files) refl json) [
          | inl settled ↦ settled
          | inr (absent, same) ↦
              let missing = find_of_unlisted (status_dir q status) filename files absent in
              ground arith
        ]

    file_settled :
        (filename : Text) (found : Option C)
        → has_suffix filename json_suffix ≡ true
        → find (job_path q status filename) files ≡ found
        → at (cleanup_status q now status retention (working files)).1 (job_path q status filename)
          ≡ left_over q now retention found
    file_settled filename found json h =
        status-Settled filename json ∙ ap (left_over q now retention) h

    status-other :
        (other : JobStatus) (filename : Text)
        → other ≢ status
        → at (cleanup_status q now status retention (working files)).1 (job_path q other filename)
          ≡ find (job_path q other filename) files
    unfolding cleanup_status
    status-other = cleanup_files-other names (working files) refl

    status-is_ok : is_ok (cleanup_status q now status retention (working files)).0 ≡ true
    unfolding cleanup_status
    status-is_ok = (cleanup_files-works names (working files) refl).0

    -- On a disk where every call works, a cleanup of one status succeeds. A job file of that status is
    -- gone behind it exactly if its job has ended and the instant of its end, with the retention added,
    -- lies before the present one; otherwise the file is as it was. No file comes up that was not there,
    -- and every job file of another status is as it was.
    pub cleanup_status_exact :
        let (result, after) = cleanup_status q now status retention (working files) in
        (is_ok result ≡ true)
        × ((filename : Text) (c : C)
            → has_suffix filename json_suffix ≡ true
            → find (job_path q status filename) files ≡ some c
            → ((at after (job_path q status filename) ≡ none) ↔ IsOver q now retention c)
              × ((at after (job_path q status filename) ≡ none)
                  ⊎ (at after (job_path q status filename) ≡ some c)))
        × ((filename : Text)
            → has_suffix filename json_suffix ≡ true
            → find (job_path q status filename) files ≡ none
            → at after (job_path q status filename) ≡ none)
        × ((other : JobStatus) (filename : Text)
            → other ≢ status
            → at after (job_path q other filename) ≡ find (job_path q other filename) files)
    cleanup_status_exact = (
      status-is_ok,
      (λ filename c json h.
          let settled = file_settled filename (some c) json h in
          let over = left_over_iff q now retention c in
          (
            (λ gone. over.0 (sym settled ∙ gone), λ h'. settled ∙ over.1 h'),
            elim (left_over_cases q now retention c) [
              | inl e ↦ inl (settled ∙ e)
              | inr e ↦ inr (settled ∙ e)
            ],
          )),
      (λ filename json h. file_settled filename none json h),
      status-other,
    )
