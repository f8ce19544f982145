-- ===== src/Queue/Find/Named.antt =====
-- Which files `GetJob` and `DeleteJob` take for a job's, and which one of a directory.
use mathlib.Core.Path.{subst}
use mathlib.Core.List.{append_assoc}
use yafe.Prelude.{
  ◌≡◌, ◌≢◌, ◌↔◌, ◌∙◌, ◌==◌, ap, sym, refl, inl, inr, true, false, none, some, List, [], ◌∷◌, ◌++◌,
  arith, All, All_at, In, Bool-cases, Option-cases,
}
use yafe.Text.{Text, text_lt, after_first, has_suffix, trim_suffix}
use yafe.Text.Laws.{text_eq_iff, has_suffix-append, trim_suffix-append, trim_suffix_kept}
use yafe.Text.Order.{text_lt_irrefl}
use yafe.Disk.Listing.{Ascending}
use yafe.Job.{json_suffix, filename_id}
use yafe.Queue.Find.{names_job, file_of}

-- The name is something without a hyphen, a hyphen, the id, and `.json`.
abbrev pub IsNamed : Text → Text → Type 0
IsNamed job_id filename =
    (before : Text) × All (λ c. c ≢ b'-') before
    × (filename ≡ before ++ (b'-' ∷ (job_id ++ json_suffix)))

after_first_hyphen :
    (before rest : Text)
    → All (λ c. c ≢ b'-') before
    → after_first b'-' (before ++ (b'-' ∷ rest)) ≡ some rest
unfolding after_first
after_first_hyphen [] rest h = refl
after_first_hyphen (c ∷ before) rest h = ground (arith, after_first_hyphen before rest h.1)

-- What the first hyphen of a name divides.
divided :
    (name rest : Text)
    → after_first b'-' name ≡ some rest
    → (before : Text) × All (λ c. c ≢ b'-') before × (name ≡ before ++ (b'-' ∷ rest))
unfolding after_first
divided [] rest h = absurd (ground arith)
divided (c ∷ name) rest h = elim (Bool-cases (c == b'-')) [
  | inl y ↦ ([], tt, ground (arith, y))
  | inr n ↦
      let (before, free, e) = divided name rest (ground (arith, n)) in
      (c ∷ before, (ground (arith, n), free), ap (λ s. c ∷ s) e)
]

All-in_middle : (s t : Text) → All (λ c. c ≢ b'-') (s ++ (b'-' ∷ t)) → ⊥
All-in_middle [] t h = h.0 refl
All-in_middle (c ∷ s) t h = All-in_middle s t h.1

-- A suffix without a hyphen stands behind any hyphen.
behind_hyphen :
    (before rest stem suffix : Text)
    → All (λ c. c ≢ b'-') suffix
    → before ++ (b'-' ∷ rest) ≡ stem ++ suffix
    → (id : Text) × (rest ≡ id ++ suffix)
behind_hyphen [] rest [] suffix free e =
    absurd (All-in_middle [] rest (subst (All (λ c. c ≢ b'-')) (sym e) free))
behind_hyphen [] rest (c ∷ stem) suffix free e = (stem, ground arith)
behind_hyphen (b ∷ before) rest [] suffix free e =
    absurd (All-in_middle (b ∷ before) rest (subst (All (λ c. c ≢ b'-')) (sym e) free))
behind_hyphen (b ∷ before) rest (c ∷ stem) suffix free e =
    behind_hyphen before rest stem suffix free (ground arith)

-- No hyphen stands in `.json`.
json_free : All (λ c. c ≢ b'-') json_suffix
json_free = ground arith

filename_id_named : (id filename : Text) → filename_id filename ≡ some id → IsNamed id filename
unfolding filename_id
filename_id_named id filename h = elim (Bool-cases (has_suffix filename json_suffix)) [
  | inr n ↦ absurd (ground (arith, n))
  | inl y ↦ elim (Option-cases (after_first b'-' filename)) [
    | inl e ↦ absurd (ground (arith, y, e))
    | inr (rest, e) ↦
        let (before, free, split) = divided filename rest e in
        let kept = trim_suffix_kept filename json_suffix y in
        let (stem, ending) =
          behind_hyphen before rest (trim_suffix filename json_suffix) json_suffix json_free
            (sym split ∙ kept) in
        let trimmed : trim_suffix rest json_suffix ≡ stem =
          ap (λ r. trim_suffix r json_suffix) ending ∙ trim_suffix-append stem json_suffix in
        let same : stem ≡ id = ground (arith, y, e, trimmed) in
        (
          before,
          free,
          split ∙ ap (λ r. before ++ (b'-' ∷ r)) (ending ∙ ap (λ r. r ++ json_suffix) same),
        )
  ]
]

named_filename_id : (id filename : Text) → IsNamed id filename → filename_id filename ≡ some id
unfolding filename_id
named_filename_id id filename (before, free, e) =
    let split = e ∙ sym (append_assoc before (b'-' ∷ id) json_suffix) in
    let json =
      ap (λ s. has_suffix s json_suffix) split
      ∙ has_suffix-append (before ++ (b'-' ∷ id)) json_suffix in
    let behind = ap (after_first b'-') e ∙ after_first_hyphen before (id ++ json_suffix) free in
    rw (json, behind, trim_suffix-append id json_suffix) refl

pub names_job_iff :
    (job_id filename : Text) → (names_job job_id filename ≡ true) ↔ IsNamed job_id filename
unfolding names_job
names_job_iff job_id filename = (
  (λ h. elim (Option-cases (filename_id filename)) [
    | inl e ↦ absurd (ground (arith, e))
    | inr (id, e) ↦
        filename_id_named job_id filename
          (e ∙ ap (λ i. some i) ((text_eq_iff id job_id).0 (ground (arith, e))))
  ]),
  (λ named. ground (arith, named_filename_id job_id filename named, text_eq_iff job_id job_id)),
)

true-ne-false : true ≢ false
true-ne-false h = ground arith

none_less :
    (name : Text) (names : List Text)
    → All (λ m. text_lt m name ≡ false) names
    → (n : Text) → In n (name ∷ names)
    → text_lt n name ≡ false
none_less name names h n (inl e) = rw e (text_lt_irrefl name)
none_less name names h n (inr m) = All_at (λ m. text_lt m name ≡ false) n names h m

module _ (job_id : Text) where
  not_named : (name n : Text) → n ≡ name → names_job job_id name ≡ false → IsNamed job_id n → ⊥
  not_named name n e other its =
      true-ne-false (sym ((names_job_iff job_id name).1 (subst (IsNamed job_id) e its)) ∙ other)

  file_of_head :
      (name : Text) (names : List Text)
      → file_of job_id (name ∷ names) ≡ none
      → names_job job_id name ≡ false
  unfolding file_of
  file_of_head name names h = ground arith

  pub file_of-none :
      (names : List Text)
      → file_of job_id names ≡ none
      → (n : Text) → In n names
      → ¬ IsNamed job_id n
  unfolding file_of
  file_of-none [] h n m named = m
  file_of-none (name ∷ names) h n (inl e) named =
      not_named name n e (file_of_head name names h) named
  file_of-none (name ∷ names) h n (inr m) named = elim (Bool-cases (names_job job_id name)) [
    | inl y ↦ ground (arith, y)
    | inr other ↦ file_of-none names (ground (arith, other)) n m named
  ]

  -- The file is in the list, it is the job's, and no lesser name in the list is.
  pub file_of-first :
      (names : List Text) (filename : Text)
      → Ascending names
      → file_of job_id names ≡ some filename
      → In filename names
        × IsNamed job_id filename
        × ((n : Text) → In n names → text_lt n filename ≡ true → ¬ IsNamed job_id n)
  unfolding file_of
  file_of-first [] filename sorted h = absurd (ground arith)
  file_of-first (name ∷ names) filename sorted h = elim (Bool-cases (names_job job_id name)) [
    | inl y ↦
        let same : name ≡ filename = ground (arith, y) in
        (
          inl (sym same),
          subst (IsNamed job_id) same ((names_job_iff job_id name).0 y),
          λ n m less its.
              true-ne-false
                (sym less ∙ ap (text_lt n) (sym same) ∙ none_less name names sorted.0 n m),
        )
    | inr other ↦
        let (there, named, first) = file_of-first names filename sorted.1 (ground (arith, other)) in
        (
          inr there,
          named,
          λ n m less its. elim m [
            | inl e ↦ not_named name n e other its
            | inr behind ↦ first n behind less its
          ],
        )
  ]
