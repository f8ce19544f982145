-- ===== src/Schedule/Store.antt =====
-- `FileStore` of internal/scheduler/store.go. Its lock makes the methods atomic with respect to
-- one another, so each is one procedure over the disk.
pub mod Laws
pub mod Listed
use yafe.Prelude.{Bool, true, false, Option, none, some, List, [], ◌∷◌, ◌++◌, if◌then◌else◌}
use yafe.Text.{Text, codes, text_lt, has_suffix, trim_suffix, trim_space}
use yafe.Result.{
  Error, Result, ok, err, is_ok, os_is_not_exist, malformed, schedule_not_found, wrapped,
}
use yafe.Disk.{
  FilePath, Io, pure, raise, attempt, ◌>>=◌, ◌>>◌, lift, wrap, choose, handle, match_option,
  missing, read_file, stat, remove, read_dir, replace_file,
}
use yafe.Names.{validate_schedule_name}
use yafe.Job.{Codec}
use yafe.Schedule.{Schedule}

abbrev pub schedule_file_extension : Text
schedule_file_extension = codes ".json"

pub record FileStore (C : Type 0) : Type 0 where
  pub dir : Text
  pub codec : Codec Schedule C

-- Puts a schedule behind those whose name is not greater.
insert_schedule : Schedule → List Schedule → List Schedule
insert_schedule s [] = s ∷ []
insert_schedule s (t ∷ ts) = if text_lt s.name t.name then s ∷ t ∷ ts else t ∷ insert_schedule s ts

-- `sort.Slice` by name.
unfoldable pub sort_schedules : List Schedule → List Schedule
unfolding insert_schedule
sort_schedules [] = []
sort_schedules (s ∷ ss) = insert_schedule s (sort_schedules ss)

module _ {C : Type 0} (st : FileStore C) where
  -- `path`
  abbrev pub schedule_path : Text → FilePath
  schedule_path name = record { dir = st.dir; name = name ++ schedule_file_extension }

  unfoldable pub store_exists : Text → Io C Bool
  unfolding stat
  store_exists name = do found ← attempt (stat (schedule_path name)); pure (is_ok found)

  read_schedule : Text → Io C Schedule
  unfolding read_file
  read_schedule name = do
    contents ← attempt (read_file (schedule_path name))
    handle contents (λ c. match_option (st.codec.decode c) (raise (wrapped malformed)) pure)
        (λ e. choose (os_is_not_exist e) (raise schedule_not_found) (raise (wrapped e)))

  -- The loop of `List`, which passes over malformed schedules.
  read_schedules : List Text → Io C (List Schedule)
  unfolding read_schedule
  read_schedules [] = pure []
  read_schedules (name ∷ names) =
      let rest = read_schedules names in
      choose (has_suffix name schedule_file_extension)
        (do
          schedule ← attempt (read_schedule (trim_suffix name schedule_file_extension))
          schedules ← rest
          handle schedule (λ s. pure (s ∷ schedules)) (λ e. pure schedules))
        rest

  unfoldable pub store_list : Io C (List Schedule)
  unfolding read_dir read_schedules
  store_list = do
    entries ← attempt (read_dir st.dir)
    handle entries (λ names. do schedules ← read_schedules names; pure (sort_schedules schedules))
        (λ e. choose (os_is_not_exist e) (pure []) (raise (wrapped e)))

  unfoldable pub store_get : Text → Io C Schedule
  unfolding read_schedule
  store_get name = do
    lift (validate_schedule_name (trim_space name))
    read_schedule (trim_space name)

  -- The name is validated as trimmed, and the file named as it is.
  unfoldable pub store_save : Schedule → Io C (Unit {0})
  store_save schedule = do
    lift (validate_schedule_name (trim_space schedule.name))
    wrap (replace_file (schedule_path schedule.name) (st.codec.encode schedule))

  unfoldable pub store_delete : Text → Io C (Unit {0})
  unfolding stat remove
  store_delete name = do
    lift (validate_schedule_name (trim_space name))
    found ← attempt (stat (schedule_path (trim_space name)))
    lift (missing schedule_not_found found)
    wrap (remove (schedule_path (trim_space name)))
