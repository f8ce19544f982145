-- ===== src/Disk/Laws.antt =====
-- Laws of the table of files.
use yafe.Prelude.{◌≡◌, refl, ◌↔◌, true, none, some, List, [], ◌∷◌, arith, if◌then◌else◌}
use yafe.Text.Laws.{text_eq_iff}
use yafe.Disk.{Disk, working, FilePath, path_eq, find, put, without}

pub path_eq_iff : (p q : FilePath) → (path_eq p q ≡ true) ↔ (p ≡ q)
unfolding path_eq
path_eq_iff p q = ground (arith, text_eq_iff p.dir q.dir, text_eq_iff p.name q.name)

pub path_eq_refl : (p : FilePath) → path_eq p p ≡ true
path_eq_refl p = (path_eq_iff p p).1 refl

module _ {C : Type 0} where
  pub find-put :
      (p q : FilePath) (c : C) (files : List (FilePath × C))
      → find q (put p c files) ≡ (if path_eq p q then some c else find q files)
  unfolding find put
  find-put p q c [] = refl
  find-put p q c ((r, d) ∷ files) =
      ground (arith, path_eq_iff p q, path_eq_iff r p, path_eq_iff r q, find-put p q c files)

  pub find-without :
      (p q : FilePath) (files : List (FilePath × C))
      → find q (without p files) ≡ (if path_eq p q then none else find q files)
  unfolding find without
  find-without p q [] = ground arith
  find-without p q ((r, d) ∷ files) =
      ground (arith, path_eq_iff p q, path_eq_iff r p, path_eq_iff r q, find-without p q files)

pub disk-working : {C : Type 0} (disk : Disk C) → disk.outcomes ≡ [] → disk ≡ working disk.files
disk-working disk w = λ i. record { files = disk.files; outcomes = w i }
