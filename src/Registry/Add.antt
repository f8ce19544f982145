-- ===== src/Registry/Add.antt =====
-- `Add`, `Delete` and `Get`: what is added is read back, and what is deleted is gone.
use yafe.Prelude.{◌≡◌, ◌≢◌, none, some, [], arith}
use yafe.Text.{Text, trim_space}
use yafe.Result.{Error, ok, err, os_is_not_exist, flow_not_found, ◌>>◌, expect}
use yafe.Disk.{Disk, at}
use yafe.Disk.Laws.{find-without, path_eq_iff}
use yafe.Disk.Atomic.{replace_file_ok, replace_file_err, replace_file_other, replace_file_works}
use yafe.Names.{validate_flow_name}
use yafe.Registry.{FileFlowRegistry, flow_path, add, delete, get}
use yafe.Registry.Paths.{other_path, flow_path-ne-temporary}

module _ {C : Type 0} (r : FileFlowRegistry) (name : Text) (disk : Disk C) where
  -- What `Get` answers on a disk where every call works.
  get_works :
      disk.outcomes ≡ []
      → (content : C) → validate_flow_name (trim_space name) ≡ ok tt
      → at disk (flow_path r (trim_space name)) ≡ some content
      → (get r name disk).0 ≡ ok content
  unfolding get os_is_not_exist
  get_works w content v h = ground arith

  get_missing :
      disk.outcomes ≡ []
      → validate_flow_name (trim_space name) ≡ ok tt
      → at disk (flow_path r (trim_space name)) ≡ none
      → (get r name disk).0 ≡ err flow_not_found
  unfolding get os_is_not_exist
  get_missing w v h = ground arith

module _ {C : Type 0} (r : FileFlowRegistry) (name : Text) (disk : Disk C) where
  add_ok :
      (content : C)
      → (add r name content disk).0 ≡ ok tt
      → at (add r name content disk).1 (flow_path r (trim_space name)) ≡ some content
  unfolding add
  add_ok content h = grind (arith, replace_file_ok)

  add_err :
      (content : C) (e : Error)
      → (add r name content disk).0 ≡ err e
      → at (add r name content disk).1 (flow_path r (trim_space name))
        ≡ at disk (flow_path r (trim_space name))
  unfolding add
  add_err content e h = grind (arith, replace_file_err)

  add_other :
      (content : C) (other : Text)
      → other ≢ trim_space name
      → at (add r name content disk).1 (flow_path r other) ≡ at disk (flow_path r other)
  unfolding add
  add_other content other h = grind (
    arith,
    other_path r (trim_space name) other h,
    flow_path-ne-temporary r other (trim_space name),
    replace_file_other,
  )

  -- Whatever calls fail, an `Add` that reports success has stored the contents whole, one that
  -- reports an error has left the flow as it was, and no other flow changes in either case.
  pub add_atomic :
      (content : C)
      → let (result, after) = add r name content disk in
        (result ≡ ok tt → at after (flow_path r (trim_space name)) ≡ some content)
        × ((e : Error)
            → result ≡ err e
            → at after (flow_path r (trim_space name)) ≡ at disk (flow_path r (trim_space name)))
        × ((other : Text)
            → other ≢ trim_space name
            → at after (flow_path r other) ≡ at disk (flow_path r other))
  add_atomic content = (add_ok content, add_err content, add_other content)

  pub add_works :
      disk.outcomes ≡ []
      → (content : C) → validate_flow_name (trim_space name) ≡ ok tt
      → ((add r name content disk).0 ≡ ok tt) × ((add r name content disk).1.outcomes ≡ [])
  unfolding add
  add_works w content v = grind (arith, replace_file_works)

  -- On a disk where every call works and for a valid name, `Get` after `Add` returns the contents.
  pub get-add :
      disk.outcomes ≡ []
      → (content : C) → validate_flow_name (trim_space name) ≡ ok tt
      → (get r name (add r name content disk).1).0 ≡ ok content
  get-add w content v =
      let (added, working) = add_works w content v in
      get_works r name (add r name content disk).1 working content v (add_ok content added)

  -- On a disk where every call works, `Delete` reports a flow that is not there, and after one
  -- that succeeds `Get` does so too, while every other flow is as it was.
  pub delete_works :
      disk.outcomes ≡ []
      → ((delete r name disk).0 ≡ (
          validate_flow_name (trim_space name)
          >> expect flow_not_found (at disk (flow_path r (trim_space name)))))
        × ((delete r name disk).0 ≡ ok tt
            → (get r name (delete r name disk).1).0 ≡ err flow_not_found)
        × ((other : Text)
            → other ≢ trim_space name
            → at (delete r name disk).1 (flow_path r other) ≡ at disk (flow_path r other))
  unfolding delete get os_is_not_exist
  delete_works w = (
    grind arith,
    λ h. grind (arith, find-without, path_eq_iff),
    λ other h. grind (arith, find-without, path_eq_iff, other_path r (trim_space name) other h),
  )
