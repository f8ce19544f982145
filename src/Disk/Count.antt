-- ===== src/Disk/Count.antt =====
-- How many files a directory has after the calls that change files.
use yafe.Prelude.{
  ℕ, suc, ◌≤◌, ◌≡◌, ◌≢◌, refl, inl, inr, none, List, [], ◌∷◌, arith, length, Bool-cases,
  if◌then◌else◌,
}
use yafe.Text.{Text, text_eq}
use yafe.Text.Laws.{text_eq_iff}
use yafe.Disk.{
  FilePath, Disk, find, put, without, insert_name, names_in, path_eq, replace_file, temporary,
}
use yafe.Disk.Laws.{path_eq_iff, find-put}

length-insert_name :
    (n : Text) (names : List Text) → length (insert_name n names) ≡ suc (length names)
unfolding insert_name
length-insert_name n [] = refl
length-insert_name n (m ∷ names) = ground (arith, length-insert_name n names)

module _ {C : Type 0} (d : Text) where
  abbrev pub count : List (FilePath × C) → ℕ
  count files = length (names_in d files)

  pub count-cons :
      (q : FilePath) (c : C) (files : List (FilePath × C))
      → count ((q, c) ∷ files) ≡ (if text_eq q.dir d then suc (count files) else count files)
  unfolding names_in
  count-cons q c files = ground (arith, length-insert_name q.name (names_in d files))

  pub count-put :
      (p : FilePath) (c : C) (files : List (FilePath × C))
      → p.dir ≢ d
      → count (put p c files) ≡ count files
  unfolding put
  count-put p c [] h = ground (arith, count-cons p c [], text_eq_iff p.dir d)
  count-put p c ((q, e) ∷ files) h = elim (Bool-cases (path_eq q p)) [
    | inl same ↦ ground (arith, count-cons q e files, count-cons q c files)
    | inr other ↦
        ground (arith, count-cons q e files, count-cons q e (put p c files), count-put p c files h)
  ]

  pub count-without :
      (p : FilePath) (files : List (FilePath × C)) → count (without p files) ≤ count files
  unfolding without
  count-without p [] = omega arith
  count-without p ((q, e) ∷ files) = elim (Bool-cases (path_eq q p)) [
    | inl same ↦ ground (arith, count-cons q e files, count-without p files)
    | inr other ↦
        ground
          (arith, count-cons q e files, count-cons q e (without p files), count-without p files)
  ]

  pub count-without_found :
      (p : FilePath) (files : List (FilePath × C))
      → p.dir ≡ d
      → find p files ≢ none
      → suc (count (without p files)) ≤ count files
  unfolding without find
  count-without_found p [] h found = absurd (found refl)
  count-without_found p ((q, e) ∷ files) h found = elim (Bool-cases (path_eq q p)) [
    | inl same ↦
        ground
          (arith, count-cons q e files, count-without p files, path_eq_iff q p, text_eq_iff q.dir d)
    | inr other ↦ ground (
      arith,
      count-cons q e files,
      count-cons q e (without p files),
      count-without_found p files h,
    )
  ]

  -- On a disk where every call works, a file that is replaced elsewhere adds none.
  pub count-replace_file :
      (p : FilePath) (c : C) (disk : Disk C)
      → disk.outcomes ≡ []
      → p.dir ≢ d
      → count (replace_file p c disk).1.files ≤ count disk.files
  unfolding replace_file
  count-replace_file p c disk works h =
      let tmp = put (temporary p) c disk.files in
      ground (
        arith,
        find-put (temporary p) (temporary p) c disk.files,
        path_eq_iff (temporary p) (temporary p),
        count-put (temporary p) c disk.files h,
        count-without (temporary p) tmp,
        count-put p c (without (temporary p) tmp) h,
      )
