-- ===== src/Engine/Parse.antt =====
-- internal/engine/parser.go: from the decoded YAML to a validated flow. Decoding is a parameter.
pub mod Parsed
use yafe.Prelude.{ℤ, pos, Option, none, some, List, [], ◌∷◌, map, if◌then◌else◌}
use yafe.Text.{Text, codes, text_eq, is_empty}
use yafe.Result.{
  Result, ok, err, ◌>>=◌, ◌>>◌, reject, wrapped, joined, of_engine, runs_on_missing,
  runs_on_unknown, steps_missing, kind_missing, kind_unknown, load_parsing,
}
use yafe.Engine.{
  StepOutput, SecretDeclaration, ToolDeclaration, ShellStep, ensure_defaults, RunsOn, host, Flow,
}
use yafe.Engine.Validate.{is_nil, validate_flow}

-- `Retries` is none where the pointer is nil.
pub record RawTool : Type 0 where
  pub name : Text
  pub url : Text
  pub path : Text
  pub sha256 : Text
  pub retries : Option ℤ

pub record RawStep : Type 0 where
  pub kind : Text
  pub name : Text
  pub cmd : Text
  pub shell : Text
  pub env : List Text
  pub outputs : List StepOutput
  pub secrets : List SecretDeclaration

pub record RawFlow : Type 0 where
  pub state_dir : Text
  pub tools : List RawTool
  pub secrets : List SecretDeclaration
  pub runs_on : Text
  pub steps : List RawStep

-- A tool with the default number of attempts where none is given.
unfoldable pub convert_tool : RawTool → ToolDeclaration
convert_tool raw = record {
  name = raw.name;
  url = raw.url;
  path = raw.path;
  sha256 = raw.sha256;
  retries = elim raw.retries [ none ↦ pos 1 | some retries ↦ retries ];
}

unfoldable pub convert_raw_step : RawStep → Result ShellStep
unfolding is_empty text_eq ensure_defaults
convert_raw_step raw = do
  reject (is_empty raw.kind) kind_missing
  if text_eq raw.kind (codes "shell")
      then ok (
          ensure_defaults (record {
            name = raw.name;
            cmd = raw.cmd;
            shell = raw.shell;
            env = raw.env;
            outputs = raw.outputs;
            secrets = raw.secrets;
          }))
      else err (of_engine kind_unknown)

unfoldable pub convert_steps : List RawStep → Result (List ShellStep)
unfolding convert_raw_step
convert_steps [] = ok []
convert_steps (raw ∷ raws) = do
  step ← convert_raw_step raw
  steps ← convert_steps raws
  ok (step ∷ steps)

unfoldable pub convert_raw_flow : RawFlow → Result Flow
unfolding convert_tool convert_steps is_empty text_eq
convert_raw_flow raw = do
  reject (is_empty raw.runs_on) runs_on_missing
  runs_on ← if text_eq raw.runs_on (codes "host") then ok host else err (of_engine runs_on_unknown)
  reject (is_nil raw.steps) steps_missing
  steps ← convert_steps raw.steps
  ok (record {
    state_dir = raw.state_dir;
    tools = map convert_tool raw.tools;
    secrets = raw.secrets;
    runs_on = some runs_on;
    steps = steps;
  })

-- `fmt.Errorf("...: %w", err)`, before anything was read or written.
abbrev wrap_error : {A : Type 0} → Result A → Result A
wrap_error (ok a) = ok a
wrap_error (err e) = err (wrapped e)

module _ {B : Type 0} (unmarshal : B → Result RawFlow) where
  unfoldable pub parse_flow : B → Result Flow
  unfolding convert_raw_flow validate_flow
  parse_flow data' = do
    raw ← wrap_error (unmarshal data')
    flow ← convert_raw_flow raw
    validate_flow flow
    ok flow

  -- `LoadBytes`
  unfoldable pub load_bytes : B → Result Flow
  unfolding parse_flow
  load_bytes data' = elim (parse_flow data') [
    | ok flow ↦ ok flow
    | err e ↦ err (joined load_parsing e)
  ]
