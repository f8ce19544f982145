-- ===== src/Registry/Rename.antt =====
-- `Rename` against the map from names to contents.
use yafe.Prelude.{◌≡◌, ◌≢◌, Option, none, [], arith, if◌then◌else◌}
use yafe.Text.{Text, trim_space, text_eq}
use yafe.Text.Laws.{text_eq_iff}
use yafe.Result.{
  Error, Result, ok, err, expect, forbid, ◌>>◌, os_is_not_exist, flow_not_found, flow_exists,
}
use yafe.Disk.{FilePath, Disk, at, temporary}
use yafe.Disk.Laws.{find-put, find-without, path_eq_iff}
use yafe.Disk.Atomic.{replace_file_ok, replace_file_err, replace_file_other, replace_file_works}
use yafe.Names.{validate_flow_name}
use yafe.Registry.{FileFlowRegistry, flow_path, rename}
use yafe.Registry.Paths.{flow_path-injective, flow_path-ne-temporary, other_path}

module _ {C : Type 0} (r : FileFlowRegistry) (old_name new_name : Text) (disk : Disk C) where
  abbrev old_path : FilePath
  old_path = flow_path r (trim_space old_name)

  abbrev new_path : FilePath
  new_path = flow_path r (trim_space new_name)

  paths_differ : trim_space old_name ≢ trim_space new_name → old_path ≢ new_path
  paths_differ h e = h (flow_path-injective r _ _ e)

  not_temporary : old_path ≢ temporary new_path
  not_temporary = flow_path-ne-temporary r (trim_space old_name) (trim_space new_name)

  rename_ok :
      trim_space old_name ≢ trim_space new_name
      → (rename r old_name new_name disk).0 ≡ ok tt
      → at (rename r old_name new_name disk).1 new_path ≡ at disk old_path
  unfolding rename os_is_not_exist
  rename_ok h k = grind (
    arith,
    paths_differ h,
    not_temporary,
    find-put,
    find-without,
    path_eq_iff,
    replace_file_ok,
    replace_file_other,
  )

  rename_err :
      trim_space old_name ≢ trim_space new_name
      → (e : Error) → (rename r old_name new_name disk).0 ≡ err e
      → (at (rename r old_name new_name disk).1 old_path ≡ at disk old_path)
        × (at (rename r old_name new_name disk).1 new_path ≡ at disk new_path)
  unfolding rename os_is_not_exist
  rename_err h e k =
      grind (arith, paths_differ h, not_temporary, replace_file_err, replace_file_other)

  rename_other :
      (name : Text)
      → name ≢ trim_space old_name
      → name ≢ trim_space new_name
      → at (rename r old_name new_name disk).1 (flow_path r name) ≡ at disk (flow_path r name)
  unfolding rename os_is_not_exist
  rename_other name h k = grind (
    arith,
    other_path r (trim_space old_name) name h,
    other_path r (trim_space new_name) name k,
    flow_path-ne-temporary r name (trim_space new_name),
    find-without,
    path_eq_iff,
    replace_file_other,
  )

  -- Whatever calls fail, a rename between two different names that reports success has put the
  -- contents of the old flow under the new name, and one that reports an error has left both
  -- names as they were; no flow with a third name changes.
  pub rename_atomic :
      trim_space old_name ≢ trim_space new_name
      → let (result, after) = rename r old_name new_name disk in
        ((result ≡ ok tt → at after new_path ≡ at disk old_path)
          × ((e : Error)
              → result ≡ err e
              → (at after old_path ≡ at disk old_path) × (at after new_path ≡ at disk new_path))
          × ((name : Text)
              → name ≢ trim_space old_name
              → name ≢ trim_space new_name
              → at after (flow_path r name) ≡ at disk (flow_path r name)))
  rename_atomic h = (rename_ok h, rename_err h, rename_other)

  -- What `Rename` answers on a disk where every call works, from the flows alone.
  abbrev rename_result : (Text → Option C) → Result (Unit {0})
  rename_result flows = do
    validate_flow_name (trim_space old_name)
    validate_flow_name (trim_space new_name)
    expect flow_not_found (flows (trim_space old_name))
    forbid flow_exists (flows (trim_space new_name))

  -- The flows after a rename that succeeds.
  abbrev renamed_flows : (Text → Option C) → Text → Option C
  renamed_flows flows name =
      if text_eq (trim_space new_name) name
      then flows (trim_space old_name)
      else if text_eq (trim_space old_name) name
      then none
      else flows name

  rename-result_works :
      disk.outcomes ≡ []
      → (rename r old_name new_name disk).0 ≡ rename_result (λ name. at disk (flow_path r name))
  unfolding rename os_is_not_exist
  rename-result_works w =
      grind (arith, not_temporary, find-put, find-without, path_eq_iff, replace_file_works)

  names_differ_works :
      disk.outcomes ≡ []
      → (rename r old_name new_name disk).0 ≡ ok tt
      → trim_space old_name ≢ trim_space new_name
  unfolding rename os_is_not_exist
  names_differ_works w k e = grind arith

  rename-old_works :
      disk.outcomes ≡ []
      → (rename r old_name new_name disk).0 ≡ ok tt
      → at (rename r old_name new_name disk).1 old_path ≡ none
  unfolding rename os_is_not_exist
  rename-old_works w k = grind (
    arith,
    paths_differ (names_differ_works w k),
    not_temporary,
    find-put,
    find-without,
    path_eq_iff,
    replace_file_works,
    replace_file_ok,
    replace_file_other,
  )

  rename-flows_works :
      disk.outcomes ≡ []
      → (rename r old_name new_name disk).0 ≡ ok tt
      → (name : Text)
      → at (rename r old_name new_name disk).1 (flow_path r name)
        ≡ renamed_flows (λ n. at disk (flow_path r n)) name
  rename-flows_works w k name =
      let differ = names_differ_works w k in
      ground (
        arith,
        text_eq_iff (trim_space new_name) name,
        text_eq_iff (trim_space old_name) name,
        rename_ok differ k,
        rename-old_works w k,
        rename_other name,
      )

  -- On a disk where every call works, `Rename` answers and acts as the map from names to contents
  -- says: it refuses an invalid name, an old name with no flow and a new name that has one, and
  -- otherwise moves the contents, which leaves nothing under the old name.
  pub rename_refines :
      disk.outcomes ≡ []
      → let (result, after) = rename r old_name new_name disk in
        let flows = λ (d : Disk C) (name : Text). at d (flow_path r name) in
        (result ≡ rename_result (flows disk))
        × (result ≡ ok tt → (name : Text) → flows after name ≡ renamed_flows (flows disk) name)
  rename_refines w = (rename-result_works w, rename-flows_works w)
