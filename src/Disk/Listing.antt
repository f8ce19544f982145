-- ===== src/Disk/Listing.antt =====
-- What `os.ReadDir` lists: exactly the files of the directory, in the order of their names.
use yafe.Prelude.{
  ◌≡◌, ◌≢◌, refl, ◌⊎◌, inl, inr, false, none, List, [], ◌∷◌, arith, All, In, Bool-cases,
  Option-cases,
}
use yafe.Text.{Text, text_eq, text_lt}
use yafe.Text.Laws.{text_eq_iff}
use yafe.Text.Order.{not_lt_trans, not_lt_of_lt}
use yafe.Disk.{FilePath, find, insert_name, names_in}
use yafe.Disk.Laws.{path_eq_iff}

-- No name stands behind a greater one.
abbrev pub Ascending : List Text → Type 0
Ascending [] = Unit
Ascending (n ∷ names) = All (λ m. text_lt m n ≡ false) names × Ascending names

insert_name_iff_In :
    (n m : Text) (names : List Text) → In m (insert_name n names) → (m ≡ n) ⊎ In m names
unfolding insert_name
insert_name_iff_In n m [] h = ground arith
insert_name_iff_In n m (k ∷ names) h = ground (arith, insert_name_iff_In n m names)

In-insert_name_self : (n : Text) (names : List Text) → In n (insert_name n names)
unfolding insert_name
In-insert_name_self n [] = inl refl
In-insert_name_self n (k ∷ names) = ground (arith, In-insert_name_self n names)

In-insert_name : (n m : Text) (names : List Text) → In m names → In m (insert_name n names)
unfolding insert_name
In-insert_name n m [] h = inr h
In-insert_name n m (k ∷ names) h = ground (arith, In-insert_name n m names)

All-insert_name :
    (P : Text → Type 0) (n : Text) (names : List Text)
    → P n
    → All P names
    → All P (insert_name n names)
unfolding insert_name
All-insert_name P n [] h k = (h, k)
All-insert_name P n (m ∷ names) h k = elim (Bool-cases (text_lt m n)) [
  | inl e ↦ rw e (k.0, All-insert_name P n names h k.1)
  | inr e ↦ rw e (h, k)
]

All-not_below :
    (s t : Text) (names : List Text)
    → text_lt t s ≡ false
    → All (λ m. text_lt m t ≡ false) names
    → All (λ m. text_lt m s ≡ false) names
All-not_below s t [] e h = tt
All-not_below s t (m ∷ names) e h = (not_lt_trans s t m e h.0, All-not_below s t names e h.1)

Ascending-insert_name :
    (n : Text) (names : List Text) → Ascending names → Ascending (insert_name n names)
unfolding insert_name
Ascending-insert_name n [] h = (tt, tt)
Ascending-insert_name n (m ∷ names) h = elim (Bool-cases (text_lt m n)) [
  | inl e ↦ rw e (
    All-insert_name (λ k. text_lt k m ≡ false) n names (not_lt_of_lt m n e) h.0,
    Ascending-insert_name n names h.1,
  )
  | inr e ↦ rw e ((e, All-not_below n m names e h.0), h)
]

pub names_in-Ascending :
    {C : Type 0} (d : Text) (files : List (FilePath × C)) → Ascending (names_in d files)
unfolding names_in
names_in-Ascending d [] = tt
names_in-Ascending d ((q, c) ∷ files) = elim (Bool-cases (text_eq q.dir d)) [
  | inl e ↦ rw e (Ascending-insert_name q.name (names_in d files) (names_in-Ascending d files))
  | inr e ↦ rw e (names_in-Ascending d files)
]

module _ {C : Type 0} (d n : Text) where
  pub find-names_in :
      (files : List (FilePath × C))
      → In n (names_in d files)
      → find (record { dir = d; name = n }) files ≢ none
  unfolding names_in find
  find-names_in [] h = absurd h
  find-names_in ((q, c) ∷ files) h = ground (
    arith,
    text_eq_iff q.dir d,
    path_eq_iff q (record { dir = d; name = n }),
    insert_name_iff_In q.name n (names_in d files),
    find-names_in files,
  )

  pub In-names_in :
      (files : List (FilePath × C))
      → find (record { dir = d; name = n }) files ≢ none
      → In n (names_in d files)
  unfolding names_in find
  In-names_in [] h = absurd (h refl)
  In-names_in ((q, c) ∷ files) h = ground (
    arith,
    text_eq_iff q.dir d,
    path_eq_iff q (record { dir = d; name = n }),
    In-insert_name_self n (names_in d files),
    In-insert_name q.name n (names_in d files),
    In-names_in files,
  )

  pub find_of_unlisted :
      (files : List (FilePath × C))
      → ¬ In n (names_in d files)
      → find (record { dir = d; name = n }) files ≡ none
  find_of_unlisted files h = elim (Option-cases (find (record { dir = d; name = n }) files)) [
    | inl e ↦ e
    | inr (c, e) ↦ absurd (h (In-names_in files (λ missing. cc)))
  ]
