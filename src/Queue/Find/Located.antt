-- ===== src/Queue/Find/Located.antt =====
-- `GetJob` and `DeleteJob` on a disk where every call works: both act on the first file, in the
-- order of the statuses and of the names, that is named for the job.
use mathlib.Core.Path.{subst}
use yafe.Prelude.{
  ◌≡◌, ◌≢◌, ◌++◌, ◌⊎◌, ◌∙◌, ap, true, In-each, refl, Option, none, some, List, [], ◌∷◌, arith, All,
  All-of_In, In, inl, inr, Option-cases,
}
use yafe.Text.{Text, text_lt}
use yafe.Result.{Result, ok, err, wrapped, malformed, os_is_not_exist, job_not_found}
use yafe.Disk.{FilePath, Disk, working, find, names_in, without}
use yafe.Disk.Listing.{find-names_in, In-names_in, names_in-Ascending}
use yafe.Job.{Job, JobStatus, pending, running, done, failed, job_status_values}
use yafe.Queue.{FileQueue, status_dir, job_path, log_file}
use yafe.Queue.Find.Named.{IsNamed, file_of-none, file_of-first}
use yafe.Queue.Find.{file_of, find_among, find_in, get_job, delete_in, delete_job}

file_of-In :
    (job_id filename : Text) (names : List Text)
    → file_of job_id names ≡ some filename
    → In filename names
unfolding file_of
file_of-In job_id filename [] h = cc
file_of-In job_id filename (name ∷ names) h = ground (arith, file_of-In job_id filename names)

module _ {C : Type 0} (q : FileQueue C) (files : List (FilePath × C)) where
  abbrev located_in : Text → List JobStatus → Option (JobStatus × Text)
  located_in job_id [] = none
  located_in job_id (status ∷ statuses) =
      let rest = located_in job_id statuses in
      elim (file_of job_id (names_in (status_dir q status) files)) [
        | none ↦ rest
        | some filename ↦ some (status, filename)
      ]

  -- The job's file: its status and name.
  abbrev located : Text → Option (JobStatus × Text)
  located job_id = located_in job_id job_status_values

  -- What is read from the file of a job.
  abbrev decoded : Option C → Result Job
  decoded none = err (wrapped malformed)
  decoded (some c) = elim (q.codec.decode c) [ none ↦ err (wrapped malformed) | some job ↦ ok job ]

  -- The disk and the result after a deletion, from where the job's file is.
  abbrev deletion : Text → Option (JobStatus × Text) → Result (Unit {0}) × Disk C
  deletion job_id none = (err job_not_found, working files)
  deletion job_id (some (status, filename)) =
      (ok tt, working (without (log_file q job_id) (without (job_path q status filename) files)))

  abbrev reading : Option (JobStatus × Text) → Result (Job × JobStatus)
  reading none = err job_not_found
  reading (some (status, filename)) = elim (decoded (find (job_path q status filename) files)) [
    | ok job ↦ ok (job, status)
    | err e ↦ err e
  ]

  -- No file of the status is named for the job.
  abbrev pub HasNone : Text → JobStatus → Type 0
  HasNone job_id status =
      (name : Text) → find (job_path q status name) files ≢ none → ¬ IsNamed job_id name

  -- The file is named for the job, no lesser name of its status is, and no file of an earlier status.
  pub record IsFirst (job_id : Text) (statuses : List JobStatus) (status : JobStatus)
      (filename : Text) : Type 0 where
    pub earlier : List JobStatus
    pub later : List JobStatus
    pub order : statuses ≡ earlier ++ (status ∷ later)
    pub named : IsNamed job_id filename
    pub before_name :
        (name : Text)
        → find (job_path q status name) files ≢ none
        → text_lt name filename ≡ true
        → ¬ IsNamed job_id name
    pub before_status : (other : JobStatus) → In other earlier → HasNone job_id other

  file_of_absent :
      (job_id : Text) (status : JobStatus)
      → file_of job_id (names_in (status_dir q status) files) ≡ none
      → HasNone job_id status
  file_of_absent job_id status absent name there =
      file_of-none job_id (names_in (status_dir q status) files) absent name
        (In-names_in (status_dir q status) name files there)

  file_of-present :
      (job_id : Text) (status : JobStatus) (filename : Text)
      → file_of job_id (names_in (status_dir q status) files) ≡ some filename
      → (c : C) × (find (job_path q status filename) files ≡ some c)
  file_of-present job_id status filename h =
      elim (Option-cases (find (job_path q status filename) files)) [
        | inl e ↦ absurd (
            find-names_in (status_dir q status) filename files
              (file_of-In job_id filename (names_in (status_dir q status) files) h) e)
        | inr found ↦ found
      ]

  delete_in-located :
      (job_id : Text) (statuses : List JobStatus)
      → delete_in q job_id statuses (working files) ≡ deletion job_id (located_in job_id statuses)
  unfolding delete_in
  delete_in-located job_id [] = refl
  delete_in-located job_id (status ∷ statuses) =
      elim (Option-cases (file_of job_id (names_in (status_dir q status) files))) [
        | inl e ↦ ground (arith, delete_in-located job_id statuses)
        | inr (filename, e) ↦ let found = file_of-present job_id status filename e in ground arith
      ]

  find_among-file_of :
      (job_id : Text) (status : JobStatus) (names : List Text)
      → All (λ name. find (job_path q status name) files ≢ none) names
      → find_among q job_id status names (working files) ≡ elim (file_of job_id names) [
        | none ↦ (ok none, working files)
        | some filename ↦ elim (decoded (find (job_path q status filename) files)) [
          | ok job ↦ (ok (some job), working files)
          | err e ↦ (err e, working files)
        ]
      ]
  unfolding find_among file_of os_is_not_exist
  find_among-file_of job_id status [] p = refl
  find_among-file_of job_id status (name ∷ names) p =
      ground (arith, find_among-file_of job_id status names p.1)

  find_in-located :
      (job_id : Text) (statuses : List JobStatus)
      → find_in q job_id statuses (working files)
        ≡ (reading (located_in job_id statuses), working files)
  unfolding find_in
  find_in-located job_id [] = refl
  find_in-located job_id (status ∷ statuses) =
      let names = names_in (status_dir q status) files in
      let among = find_among-file_of job_id status names (
        All-of_In (λ name. find (job_path q status name) files ≢ none) names
          (λ name. find-names_in (status_dir q status) name files)) in
      ground (arith, find_in-located job_id statuses)

  IsFirst-later :
      (job_id : Text) (s status : JobStatus) (statuses : List JobStatus) (filename : Text)
      → file_of job_id (names_in (status_dir q s) files) ≡ none
      → IsFirst job_id statuses status filename
      → IsFirst job_id (s ∷ statuses) status filename
  IsFirst-later job_id s status statuses filename absent first = record {
    earlier = s ∷ first.earlier;
    later = first.later;
    order = ap (λ l. s ∷ l) first.order;
    named = first.named;
    before_name = first.before_name;
    before_status =
        In-each (λ other. HasNone job_id other) s first.earlier (file_of_absent job_id s absent)
          first.before_status;
  }

  located_in-none :
      (job_id : Text) (statuses : List JobStatus)
      → located_in job_id statuses ≡ none
      → (status : JobStatus) → In status statuses
      → HasNone job_id status
  located_in-none job_id [] h status m = absurd m
  located_in-none job_id (s ∷ statuses) h status m =
      elim (Option-cases (file_of job_id (names_in (status_dir q s) files))) [
        | inr (filename, e) ↦ absurd (ground (arith, e))
        | inl e ↦
            In-each (λ other. HasNone job_id other) s statuses (file_of_absent job_id s e)
              (located_in-none job_id statuses (ground (arith, e))) status m
      ]

  head-IsFirst :
      (job_id : Text) (s : JobStatus) (statuses : List JobStatus) (name : Text)
      → file_of job_id (names_in (status_dir q s) files) ≡ some name
      → IsFirst job_id (s ∷ statuses) s name
  head-IsFirst job_id s statuses name e =
      let names = names_in (status_dir q s) files in
      let (there, named, first) =
        file_of-first job_id names name (names_in-Ascending (status_dir q s) files) e in
      record {
        earlier = [];
        later = statuses;
        order = refl;
        named = named;
        before_name = λ n present less. first n (In-names_in (status_dir q s) n files present) less;
        before_status = λ other m. absurd m;
      }

  abbrev Goes : Text → JobStatus → List JobStatus → JobStatus → Text → Type 0
  Goes job_id s statuses status filename =
      IsFirst job_id (s ∷ statuses) status filename
      × ((c : C) × (find (job_path q status filename) files ≡ some c))

  located_in-IsFirst :
      (job_id : Text) (statuses : List JobStatus) (status : JobStatus) (filename : Text)
      → located_in job_id statuses ≡ some (status, filename)
      → IsFirst job_id statuses status filename
        × ((c : C) × (find (job_path q status filename) files ≡ some c))
  located_in-IsFirst job_id [] status filename h = absurd (ground arith)
  located_in-IsFirst job_id (s ∷ statuses) status filename h =
      elim (Option-cases (file_of job_id (names_in (status_dir q s) files))) [
        | inl e ↦
            let (first, there) =
              located_in-IsFirst job_id statuses status filename (ground (arith, e)) in
            (IsFirst-later job_id s status statuses filename e first, there)
        | inr (name, e) ↦
            let same_status : s ≡ status = ground (arith, e) in
            let same_name : name ≡ filename = ground (arith, e) in
            subst (Goes job_id s statuses status) same_name (
              subst (λ u. Goes job_id s statuses u name) same_status
                (head-IsFirst job_id s statuses name e, file_of-present job_id s name e))
      ]

  is_status : (status : JobStatus) → In status job_status_values
  is_status pending = inl refl
  is_status running = inr (inl refl)
  is_status done = inr (inr (inl refl))
  is_status failed = inr (inr (inr (inl refl)))

  -- What `GetJob` makes of the contents of the file.
  abbrev pub job_in : C → JobStatus → Result (Job × JobStatus)
  job_in c status = elim (q.codec.decode c) [
    | none ↦ err (wrapped malformed)
    | some job ↦ ok (job, status)
  ]

  -- What the two methods do for a job: there is no file for it, or a first one.
  abbrev pub ActsOn : Text → Type 0
  ActsOn job_id =
      (((status : JobStatus) → HasNone job_id status)
        × (get_job q job_id (working files) ≡ (err job_not_found, working files))
        × (delete_job q job_id (working files) ≡ (err job_not_found, working files)))
      ⊎ ((status : JobStatus) × (filename : Text) × (c : C) × IsFirst job_id job_status_values
            status filename
          × (find (job_path q status filename) files ≡ some c)
          × (get_job q job_id (working files) ≡ (job_in c status, working files))
          × (delete_job q job_id (working files) ≡ (
            ok tt,
            working (without (log_file q job_id) (without (job_path q status filename) files)),
          )))

  -- On a disk where every call works. If no file of any status has a name of something without a hyphen,
  -- a hyphen, the job's id, and `.json`, then `GetJob` and `DeleteJob` report that there is no such job,
  -- and change nothing. Otherwise there is a first file with such a name, in the order of the statuses
  -- and then of the names; `GetJob` gives the job that it holds with its status, or the error that it is
  -- malformed, and changes nothing, and `DeleteJob` removes it and the log of the job and nothing else.
  pub get_and_delete_located : (job_id : Text) → ActsOn job_id
  unfolding get_job delete_job
  get_and_delete_located job_id =
      let got = find_in-located job_id job_status_values in
      let deleted = delete_in-located job_id job_status_values in
      elim (Option-cases (located job_id)) [
        | inl e ↦ inl (
          λ status. located_in-none job_id job_status_values e status (is_status status),
          got ∙ ap (λ place. (reading place, working files)) e,
          deleted ∙ ap (deletion job_id) e,
        )
        | inr ((status, filename), e) ↦
            let (first, (c, there)) =
              located_in-IsFirst job_id job_status_values status filename e in
            inr (
              status,
              filename,
              c,
              first,
              there,
              got ∙ ap (λ place. (reading place, working files)) e ∙ ground (arith, there),
              deleted ∙ ap (deletion job_id) e,
            )
      ]
