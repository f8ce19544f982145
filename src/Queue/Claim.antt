-- ===== src/Queue/Claim.antt =====
-- `Dequeue`: the first job file that no other worker holds is claimed.
use yafe.Prelude.{
  ℕ, ◌≡◌, ◌≢◌, refl, Bool, true, false, not, ◌&&◌, Option, none, some, List, [], ◌∷◌, arith, All,
  All-of_In, All_at, In, inl, inr, if◌then◌else◌,
}
use yafe.Text.{Text, text_lt, has_suffix}
use yafe.Text.Order.{text_lt_irrefl}
use yafe.Result.{ok, err, wrapped, malformed}
use yafe.Disk.{FilePath, working, find, names_in}
use yafe.Disk.Listing.{find-names_in, Ascending}
use yafe.Job.{Job, pending, running, json_suffix}
use yafe.Queue.{FileQueue, status_dir, job_path, started, move_job, try_claim_job, claim_first}
use yafe.Queue.Move.{move_job_works}

pub pending-ne-running : pending ≢ running
pending-ne-running e = cc

-- The first job file in a list of names that is not held.
abbrev pub claimable : (Text → Bool) → List Text → Option Text
claimable held [] = none
claimable held (name ∷ names) =
    let rest = claimable held names in
    if has_suffix name json_suffix && not (held name) then some name else rest

pub claimable-json :
    (held : Text → Bool) (names : List Text) (name : Text)
    → claimable held names ≡ some name
    → has_suffix name json_suffix ≡ true
claimable-json held [] name h = cc
claimable-json held (n ∷ names) name h = ground (arith, claimable-json held names name)

module _ {C : Type 0} (q : FileQueue C) (files : List (FilePath × C)) where
  abbrev pub pending_names : List Text
  pending_names = names_in (status_dir q pending) files

  abbrev pub Present : List Text → Type 0
  Present = All (λ name. find (job_path q pending name) files ≢ none)

  pub pending_names-Present : Present pending_names
  pending_names-Present =
      All-of_In (λ name. find (job_path q pending name) files ≢ none)
        (names_in (status_dir q pending) files)
        (λ name. find-names_in (status_dir q pending) name files)

module _ {C : Type 0} (q : FileQueue C) (held : Text → Bool) (now : ℕ)
    (files : List (FilePath × C)) where
  try_claim_held :
      (name : Text)
      → find (job_path q pending name) files ≢ none
      → held name ≡ true
      → try_claim_job q held now name (working files) ≡ (ok none, working files)
  unfolding try_claim_job
  try_claim_held name h k = ground arith

  try_claim_free :
      (name : Text) (c : C) (job : Job)
      → has_suffix name json_suffix ≡ true
      → held name ≡ false
      → find (job_path q pending name) files ≡ some c
      → q.codec.decode c ≡ some job
      → try_claim_job q held now name (working files) ≡ (
        ok (some (started now job)),
        (move_job q pending running name (started now job) (working files)).1,
      )
  unfolding try_claim_job
  try_claim_free name c job json free h k =
      let moved =
        move_job_works q pending running name (started now job) (working files) pending-ne-running
          json refl in
      ground arith

  pub claim_first-none :
      (names : List Text)
      → Present q files names
      → claimable held names ≡ none
      → claim_first q held now names (working files) ≡ (ok none, working files)
  unfolding claim_first
  claim_first-none [] p h = refl
  claim_first-none (name ∷ names) p h =
      ground (arith, try_claim_held name p.0, claim_first-none names p.1)

  pub claim_first-some :
      (names : List Text) (name : Text) (c : C) (job : Job)
      → Present q files names
      → claimable held names ≡ some name
      → find (job_path q pending name) files ≡ some c
      → q.codec.decode c ≡ some job
      → claim_first q held now names (working files) ≡ (
        ok (some (started now job)),
        (move_job q pending running name (started now job) (working files)).1,
      )
  unfolding claim_first
  claim_first-some [] name c job p h k d = cc
  claim_first-some (n ∷ names) name c job p h k d =
      ground
        (arith, try_claim_held n p.0, try_claim_free n c job, claim_first-some names name c job p.1)

  try_claim_malformed :
      (name : Text) (c : C)
      → held name ≡ false
      → find (job_path q pending name) files ≡ some c
      → q.codec.decode c ≡ none
      → try_claim_job q held now name (working files) ≡ (err (wrapped malformed), working files)
  unfolding try_claim_job
  try_claim_malformed name c free h k = ground arith

  pub claim_first_malformed :
      (names : List Text) (name : Text) (c : C)
      → Present q files names
      → claimable held names ≡ some name
      → find (job_path q pending name) files ≡ some c
      → q.codec.decode c ≡ none
      → claim_first q held now names (working files) ≡ (err (wrapped malformed), working files)
  unfolding claim_first
  claim_first_malformed [] name c p h k d = cc
  claim_first_malformed (n ∷ names) name c p h k d =
      ground (
        arith,
        try_claim_held n p.0,
        try_claim_malformed n c,
        claim_first_malformed names name c p.1,
      )

-- What is claimable is not behind any other job file that is not held.
pub claimable-first :
    (held : Text → Bool) (names : List Text) (name other : Text)
    → Ascending names
    → claimable held names ≡ some name
    → In other names
    → has_suffix other json_suffix ≡ true
    → held other ≡ false
    → text_lt other name ≡ false
claimable-first held [] name other a h m json free = cc
claimable-first held (n ∷ names) name other a h (inl e) json free =
    ground (arith, text_lt_irrefl name)
claimable-first held (n ∷ names) name other a h (inr m) json free = ground (
  arith,
  claimable-first held names name other a.1,
  All_at (λ k. text_lt k n ≡ false) other names a.0 m,
)
