-- ===== src/Engine.antt =====
-- internal/engine: flows, their validation, and how they run. `ShellStep` is the only step and
-- `RunsOnHost` the only place to run on, so `Step` and `RunsOn` are these types. An error that wraps a
-- sentinel behind or before a message is that sentinel.
pub mod Host
pub mod Parse
pub mod Resolve
pub mod Run
pub mod Secret
pub mod Shell
pub mod State
pub mod Template
pub mod Tool
pub mod Validate
use yafe.Prelude.{ℕ, ℤ, Bool, true, false, ◌||◌, Option, List, [], ◌∷◌, if◌then◌else◌}
use yafe.Text.{Text, codes, text_eq, is_empty}

-- `OutputType` is a string.
pub record StepOutput : Type 0 where
  pub name : Text
  pub type : Text
  pub path : Text

-- `OutputType.IsValid`
unfoldable pub is_valid_output_type : Text → Bool
unfolding text_eq
is_valid_output_type type = text_eq type (codes "variable") || text_eq type (codes "file")

pub record SecretSource : Type 0 where
  pub env : Text
  pub file : Text

pub record SecretDeclaration : Type 0 where
  pub name : Text
  pub source : SecretSource

pub record ToolDeclaration : Type 0 where
  pub name : Text
  pub url : Text
  pub path : Text
  pub sha256 : Text
  pub retries : ℤ

pub record ShellStep : Type 0 where
  pub name : Text
  pub cmd : Text
  pub shell : Text
  pub env : List Text
  pub outputs : List StepOutput
  pub secrets : List SecretDeclaration

-- `EnsureDefaults`
unfoldable pub ensure_defaults : ShellStep → ShellStep
unfolding is_empty
ensure_defaults step = record step {
  shell = if is_empty step.shell then codes "bash" else step.shell;
}

pub data RunsOn : Type 0 where
  host : RunsOn

-- `runs_on` is none where the pointer is nil.
pub record Flow : Type 0 where
  pub state_dir : Text
  pub tools : List ToolDeclaration
  pub secrets : List SecretDeclaration
  pub runs_on : Option RunsOn
  pub steps : List ShellStep
