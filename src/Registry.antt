-- ===== src/Registry.antt =====
-- internal/registry/registry.go: flows as files `<name>.yaml` of one directory. A method of
-- `FileFlowRegistry` is a procedure over the disk.
pub mod Paths
pub mod Rename
pub mod Add
use yafe.Prelude.{Bool, true, false, ◌||◌, Option, none, some, List, [], ◌∷◌, ◌++◌, if◌then◌else◌}
use yafe.Text.{Text, codes, has_suffix, trim_suffix, trim_space}
use yafe.Result.{
  Error, Result, ok, err, is_ok, os_is_not_exist, flow_not_found, flow_exists, wrapped,
}
use yafe.Disk.{
  FilePath, Disk, Io, pure, raise, attempt, ◌>>=◌, ◌>>◌, lift, wrap, missing, present, read_file,
  stat, remove, read_dir, insert_name, replace_file,
}
use yafe.Names.{validate_flow_name}

abbrev pub flow_file_extension : Text
flow_file_extension = codes ".yaml"

abbrev pub flow_file_extension_alt : Text
flow_file_extension_alt = codes ".yml"

pub record FileFlowRegistry : Type 0 where
  pub dir : Text

-- `Path`
abbrev pub flow_path : FileFlowRegistry → Text → FilePath
flow_path r name = record { dir = r.dir; name = name ++ flow_file_extension }

is_flow_file : Text → Bool
is_flow_file name = has_suffix name flow_file_extension || has_suffix name flow_file_extension_alt

flow_name : Text → Text
flow_name name = trim_suffix (trim_suffix name flow_file_extension) flow_file_extension_alt

-- The loop of `List`, whose result `sort.Strings` puts in order.
flow_names : List Text → List Text
unfolding is_flow_file flow_name insert_name
flow_names [] = []
flow_names (name ∷ names) =
    let rest = flow_names names in
    if is_flow_file name then insert_name (flow_name name) rest else rest

module _ {C : Type 0} (r : FileFlowRegistry) where
  unfoldable pub exists : Text → Io C Bool
  unfolding stat
  exists name = do found ← attempt (stat (flow_path r name)); pure (is_ok found)

  unfoldable pub list : Io C (List Text)
  unfolding read_dir flow_names
  list = do
    entries ← attempt (read_dir r.dir)
    lift (elim entries [
      | ok names ↦ ok (flow_names names)
      | err e ↦ if os_is_not_exist e then ok [] else err (wrapped e)
    ])

  unfoldable pub get : Text → Io C C
  unfolding read_file
  get name = do
    lift (validate_flow_name (trim_space name))
    content ← attempt (read_file (flow_path r (trim_space name)))
    lift (elim content [
      | ok c ↦ ok c
      | err e ↦ if os_is_not_exist e then err flow_not_found else err (wrapped e)
    ])

  unfoldable pub delete : Text → Io C (Unit {0})
  unfolding stat remove
  delete name = do
    lift (validate_flow_name (trim_space name))
    found ← attempt (stat (flow_path r (trim_space name)))
    lift (missing flow_not_found found)
    wrap (remove (flow_path r (trim_space name)))

  unfoldable pub add : Text → C → Io C (Unit {0})
  add name content = do
    lift (validate_flow_name (trim_space name))
    wrap (replace_file (flow_path r (trim_space name)) content)

  -- `Rename`; the removal of the old file may fail, which is only logged.
  unfoldable pub rename : Text → Text → Io C (Unit {0})
  unfolding stat read_file remove
  rename old_name new_name = do
    lift (validate_flow_name (trim_space old_name))
    lift (validate_flow_name (trim_space new_name))
    old_found ← attempt (stat (flow_path r (trim_space old_name)))
    lift (missing flow_not_found old_found)
    new_found ← attempt (stat (flow_path r (trim_space new_name)))
    lift (present flow_exists new_found)
    content ← wrap (read_file (flow_path r (trim_space old_name)))
    wrap (replace_file (flow_path r (trim_space new_name)) content)
    attempt (remove (flow_path r (trim_space old_name)))
    pure tt
