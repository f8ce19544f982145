-- ===== src/Disk.antt =====
-- The file system, as far as the program uses it: files at paths, and the calls of Go's `os`
-- package. Any call may fail; the list of outcomes says which calls do, and is an input of every
-- operation, so that a statement for all disks is a statement for all failures.
pub mod Laws
pub mod Atomic
pub mod Listing
pub mod Count
use yafe.Prelude.{Bool, true, false, ◌&&◌, Option, none, some, List, [], ◌∷◌, ◌++◌, if◌then◌else◌}
pub use yafe.Exec.{
  Exec, pure, raise, attempt, lift, choose, wrap, ◌>>=◌, ◌>>◌, handle, match_option,
}
use yafe.Text.{Text, codes, text_eq, text_lt}
use yafe.Result.{Error, Result, ok, err, io_failure, not_exist, wrapped, os_is_not_exist}

pub record FilePath : Type 0 where
  pub dir : Text
  pub name : Text

unfoldable pub path_eq : FilePath → FilePath → Bool
path_eq p q = text_eq p.dir q.dir && text_eq p.name q.name

-- What happens to one call: it works, it fails, or, if it is a write, it leaves other contents
-- behind and reports an error. A call that is not a write takes `torn` for `fails`.
pub data Outcome (C : Type 0) : Type 0 where
  works fails : Outcome C
  torn : C → Outcome C

pub record Disk (C : Type 0) : Type 0 where
  pub files : List (FilePath × C)
  -- the outcomes of the calls to come; when the list is at its end, calls work
  pub outcomes : List (Outcome C)

module _ {C : Type 0} where
  unfoldable pub find : FilePath → List (FilePath × C) → Option C
  find p [] = none
  find p ((q, c) ∷ files) = if path_eq q p then some c else find p files

  unfoldable pub put : FilePath → C → List (FilePath × C) → List (FilePath × C)
  put p c [] = (p, c) ∷ []
  put p c ((q, d) ∷ files) = if path_eq q p then (q, c) ∷ files else (q, d) ∷ put p c files

  unfoldable pub without : FilePath → List (FilePath × C) → List (FilePath × C)
  without p [] = []
  without p ((q, d) ∷ files) =
      let rest = without p files in if path_eq q p then rest else (q, d) ∷ rest

  -- The contents of a file on the disk.
  abbrev pub at : Disk C → FilePath → Option C
  at disk p = find p disk.files

  abbrev pub first_outcome : List (Outcome C) → Outcome C
  first_outcome [] = works
  first_outcome (o ∷ rest) = o

  abbrev pub later_outcomes : List (Outcome C) → List (Outcome C)
  later_outcomes [] = []
  later_outcomes (o ∷ rest) = rest

-- A disk on which every call to come works.
abbrev pub working : {C : Type 0} → List (FilePath × C) → Disk C
working files = record { files = files; outcomes = [] }

-- A procedure over the disk.
abbrev pub Io : Type 0 → Type 0 → Type 0
Io C A = Exec (Disk C) A

-- `os.IsNotExist(err)`
abbrev pub is_missing {ℓ} : {A : Type ℓ} → Result A → Bool
is_missing (ok _) = false
is_missing (err e) = os_is_not_exist e

-- `if os.IsNotExist(err) { return e }`: any other error of the call is passed over.
abbrev pub missing : Error → Result (Unit {0}) → Result (Unit {0})
missing e (ok _) = ok tt
missing e (err x) = if os_is_not_exist x then err e else ok tt

-- `if err == nil { return e }`
abbrev pub present : Error → Result (Unit {0}) → Result (Unit {0})
present e (ok _) = err e
present e (err x) = ok tt

-- Puts a name in its place in the order of strings.
unfoldable pub insert_name : Text → List Text → List Text
insert_name n [] = n ∷ []
insert_name n (m ∷ ns) = if text_lt m n then m ∷ insert_name n ns else n ∷ m ∷ ns

-- Where `os.WriteFile` puts the new contents before the rename.
abbrev pub temporary : FilePath → FilePath
temporary p = record p { name = p.name ++ codes ".tmp" }

module _ {C : Type 0} where
  -- The outcome of the call at hand stands last in what the calls compute with.
  abbrev read_outcome : Option C → Outcome C → Result C
  read_outcome found works = elim found [ none ↦ err not_exist | some c ↦ ok c ]
  read_outcome found fails = err io_failure
  read_outcome found (torn d) = err io_failure

  -- `os.ReadFile`
  unfoldable pub read_file : FilePath → Io C C
  read_file p disk = (
    read_outcome (at disk p) (first_outcome disk.outcomes),
    record disk { outcomes = later_outcomes disk.outcomes },
  )

  abbrev write_outcome : Outcome C → Result (Unit {0})
  write_outcome works = ok tt
  write_outcome fails = err io_failure
  write_outcome (torn d) = err io_failure

  abbrev written : FilePath → C → List (FilePath × C) → Outcome C → List (FilePath × C)
  written p c files works = put p c files
  written p c files fails = files
  written p c files (torn d) = put p d files

  -- `os.WriteFile`
  unfoldable pub write_file : FilePath → C → Io C (Unit {0})
  write_file p c disk = (
    write_outcome (first_outcome disk.outcomes),
    record {
      files = written p c disk.files (first_outcome disk.outcomes);
      outcomes = later_outcomes disk.outcomes;
    },
  )

  -- What a call answers that wants the file to be there.
  abbrev stat_outcome : Option C → Outcome C → Result (Unit {0})
  stat_outcome found works = elim found [ none ↦ err not_exist | some c ↦ ok tt ]
  stat_outcome found fails = err io_failure
  stat_outcome found (torn d) = err io_failure

  abbrev renamed :
      FilePath → FilePath → List (FilePath × C) → Option C → Outcome C → List (FilePath × C)
  renamed p q files found works = elim found [ none ↦ files | some c ↦ put q c (without p files) ]
  renamed p q files found fails = files
  renamed p q files found (torn d) = files

  -- `os.Rename`
  unfoldable pub rename : FilePath → FilePath → Io C (Unit {0})
  rename p q disk = (
    stat_outcome (at disk p) (first_outcome disk.outcomes),
    record {
      files = renamed p q disk.files (at disk p) (first_outcome disk.outcomes);
      outcomes = later_outcomes disk.outcomes;
    },
  )

  abbrev removed : FilePath → List (FilePath × C) → Outcome C → List (FilePath × C)
  removed p files works = without p files
  removed p files fails = files
  removed p files (torn d) = files

  -- `os.Remove`
  unfoldable pub remove : FilePath → Io C (Unit {0})
  remove p disk = (
    stat_outcome (at disk p) (first_outcome disk.outcomes),
    record {
      files = removed p disk.files (first_outcome disk.outcomes);
      outcomes = later_outcomes disk.outcomes;
    },
  )

  -- `os.Stat`, of which the program looks at the error alone
  unfoldable pub stat : FilePath → Io C (Unit {0})
  stat p disk = (
    stat_outcome (at disk p) (first_outcome disk.outcomes),
    record disk { outcomes = later_outcomes disk.outcomes },
  )

  -- The names in a directory, sorted.
  unfoldable pub names_in : Text → List (FilePath × C) → List Text
  unfolding insert_name
  names_in d [] = []
  names_in d ((q, c) ∷ files) =
      let rest = names_in d files in if text_eq q.dir d then insert_name q.name rest else rest

  abbrev list_outcome : List Text → Outcome C → Result (List Text)
  list_outcome names works = ok names
  list_outcome names fails = err io_failure
  list_outcome names (torn d) = err io_failure

  -- `os.ReadDir`, which sorts by name; the directories are made when the program starts
  unfoldable pub read_dir : Text → Io C (List Text)
  unfolding names_in
  read_dir d disk = (
    list_outcome (names_in d disk.files) (first_outcome disk.outcomes),
    record disk { outcomes = later_outcomes disk.outcomes },
  )

  -- The pattern by which the program replaces a file: write `<path>.tmp`, then rename it. Where
  -- the rename fails the temporary file is removed, and an error of that is only logged.
  unfoldable pub replace_file : FilePath → C → Io C (Unit {0})
  unfolding write_file rename remove
  replace_file p c = do
    write_file (temporary p) c
    renamed ← attempt (rename (temporary p) p)
    λ disk. elim renamed [ ok _ ↦ (ok tt, disk) | err e ↦ (err e, (remove (temporary p) disk).1) ]
