-- ===== src/Engine/Host.antt =====
-- What internal/engine calls of the operating system, as calls on the state of a machine. Every call
-- may fail with an error of the system and may change the machine.
use yafe.Prelude.{Option, List, ◌⊎◌, inl, inr}
use yafe.Text.{Text}
use yafe.Result.{Error, ok, err, joined, EngineError, io_failure, not_exist}
use yafe.Exec.{Exec}

-- An error of the system, and the one for which `os.IsNotExist` holds.
pub data SystemError : Type 0 where
  missing broken : SystemError

abbrev pub System : Type 0 → Type 0 → Type 0
System W A = W → (SystemError ⊎ A) × W

unfoldable pub system_error : SystemError → Error
system_error missing = not_exist
system_error broken = io_failure

-- `exec.CommandContext` with its directory and its environment.
pub record Command : Type 0 where
  pub name : Text
  pub arguments : List Text
  pub dir : Text
  pub env : List Text

pub record Host (W : Type 0) : Type 0 where
  -- `os.TempDir`, and `os.Getpid` in decimals
  pub temp_dir : Text
  pub pid : Text
  pub environ : W → List Text
  pub lookup_env : Text → W → Option Text
  -- `generateRunID`
  pub run_id : W → Text × W
  pub read_file : Text → System W Text
  pub mkdir_all : Text → System W (Unit {0})
  -- `os.Create` and `Close`
  pub create_file : Text → System W (Unit {0})
  -- `os.Open`, and the lines of a `bufio.Scanner` on the file or the error that it stops with
  pub open_lines : Text → System W (SystemError ⊎ List Text)
  pub stat : Text → System W (Unit {0})
  pub remove_all : Text → System W (Unit {0})
  pub remove : Text → System W (Unit {0})
  pub chmod : Text → System W (Unit {0})
  pub create_temp : Text → System W Text
  pub write_string : Text → Text → System W (Unit {0})
  pub sync : Text → System W (Unit {0})
  -- `ctx.Err`, and `Cmd.Run`
  pub context_error : W → Option SystemError
  pub run_command : Command → System W (Unit {0})
  pub look_path : Text → System W Text
  -- `err.Error()`, and `strings.ToUpper`
  pub error_text : Error → Text
  pub to_upper : Text → Text

module _ {W A : Type 0} where
  abbrev pub call : System W A → Exec W A
  call m w = (elim (m w).0 [ inl e ↦ err (system_error e) | inr a ↦ ok a ], (m w).1)

  -- `return fmt.Errorf("%w: ...: %w", sentinel, err)`
  abbrev pub join_error : EngineError → Exec W A → Exec W A
  join_error sentinel m w =
      (elim (m w).0 [ ok a ↦ ok a | err e ↦ err (joined sentinel e) ], (m w).1)

-- A call that is deferred: it is made whatever the result is, which stays.
abbrev pub deferring : {W A : Type 0} → Exec W (Unit {0}) → Exec W A → Exec W A
deferring last m w = ((m w).0, (last (m w).1).1)
