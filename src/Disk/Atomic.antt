-- ===== src/Disk/Atomic.antt =====
-- `replace_file`: the target is replaced as a whole or not at all.
use yafe.Prelude.{[], ◌≡◌, ◌≢◌, some, arith, ap, length, length-append}
use yafe.Text.{codes}
use yafe.Result.{Error, ok, err}
use yafe.Disk.{FilePath, Disk, at, temporary, replace_file}
use yafe.Disk.Laws.{find-put, find-without, path_eq_iff}

temporary-ne : (p : FilePath) → temporary p ≢ p
temporary-ne p e =
    omega (arith, ap (λ (q : FilePath). length q.name) e, length-append p.name (codes ".tmp"))

module _ {C : Type 0} (p : FilePath) (c : C) (disk : Disk C) where
  pub replace_file_ok : (replace_file p c disk).0 ≡ ok tt → at (replace_file p c disk).1 p ≡ some c
  unfolding replace_file
  replace_file_ok h = grind (arith, temporary-ne p, find-put, find-without, path_eq_iff)

  pub replace_file_err :
      {e : Error} → (replace_file p c disk).0 ≡ err e → at (replace_file p c disk).1 p ≡ at disk p
  unfolding replace_file
  replace_file_err h = grind (arith, temporary-ne p, find-put, find-without, path_eq_iff)

  pub replace_file_other :
      (q : FilePath) → q ≢ p → q ≢ temporary p → at (replace_file p c disk).1 q ≡ at disk q
  unfolding replace_file
  replace_file_other q h k = grind (arith, find-put, find-without, path_eq_iff)

  -- On a disk where every call works, it succeeds.
  pub replace_file_works :
      disk.outcomes ≡ []
      → ((replace_file p c disk).0 ≡ ok tt) × ((replace_file p c disk).1.outcomes ≡ [])
  unfolding replace_file
  replace_file_works h = grind (arith, find-put, path_eq_iff)
