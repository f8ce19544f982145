-- ===== src/Engine/State.antt =====
-- internal/engine/state.go: the directory and the outputs that the steps of a run share.
pub mod Collect
pub mod Variables
use yafe.Prelude.{
  Bool, true, false, not, ◌&&◌, ◌||◌, Option, none, some, ◌⊎◌, inl, inr, List, [], ◌∷◌, ◌++◌,
  if◌then◌else◌,
}
use yafe.Text.{Text, codes, text_eq, is_empty, trim_space, has_prefix, before_first, after_first}
use yafe.Text.Paths.{clean, join}
use yafe.Result.{
  Error, Result, ok, err, of_engine, wrapped, os_is_not_exist, missing_output, path_traversal,
  invalid_output_type,
}
use yafe.Exec.{Exec, pure, raise, wrap, attempt, handle, match_option, choose, ◌>>=◌, ◌>>◌}
use yafe.Engine.{StepOutput, ShellStep}
use yafe.Engine.Host.{Host, SystemError, missing, broken, system_error, call}

-- The value of an output of a step.
pub record Collected : Type 0 where
  pub step : Text
  pub output : Text
  pub value : Text

-- `outputs` has the last value that was set for an output first. `tools_dir` is that of the tool
-- manager, if there is one. The log writer is left out.
pub record StateManager : Type 0 where
  pub base_dir : Text
  pub run_id : Text
  pub outputs : List Collected
  pub inputs : List (Text × Text)
  pub tools_dir : Option Text

unfoldable pub find_output : Text → Text → List Collected → Option Text
unfolding text_eq
find_output step output [] = none
find_output step output (c ∷ outputs) =
    if text_eq c.step step && text_eq c.output output
    then some c.value
    else find_output step output outputs

unfoldable pub get_output : StateManager → Text → Text → Option Text
unfolding find_output
get_output state step output = find_output step output state.outputs

unfoldable pub set_output : Text → Text → Text → StateManager → StateManager
set_output step output value state = record state {
  outputs = record { step = step; output = output; value = value } ∷ state.outputs;
}

abbrev pub step_dir : StateManager → Text → Text
step_dir state step = join state.base_dir step

abbrev pub output_file : StateManager → Text → Text
output_file state step = join (join state.base_dir (codes "_outputs")) step

-- One line of an output file: none for a line without a value.
unfoldable pub parse_output_line : Text → Option (Text × Text)
unfolding trim_space is_empty has_prefix before_first after_first
parse_output_line raw =
    let line = trim_space raw in
    if is_empty line || has_prefix line (b'#' ∷ []) then none else elim (after_first b'=' line) [
      | none ↦ none
      | some value ↦ some (trim_space (before_first b'=' line), trim_space value)
    ]

-- The variables of the lines; `result[key] = value` leaves the value of the last line of a key.
unfoldable pub find_variable : Text → List Text → Option Text
unfolding parse_output_line text_eq
find_variable key [] = none
find_variable key (line ∷ lines) = elim (find_variable key lines) [
  | some value ↦ some value
  | none ↦ elim (parse_output_line line) [
    | none ↦ none
    | some (k, value) ↦ if text_eq k key then some value else none
  ]
]

-- Whether a path is in the directory, as their cleaned texts say.
unfoldable pub is_inside : Text → Text → Bool
unfolding has_prefix text_eq clean
is_inside base path =
    has_prefix (clean path) (clean base ++ codes "/") || text_eq (clean path) (clean base)

module _ {W : Type 0} (h : Host W) where
  -- `NewStateManager`
  unfoldable pub new_state : Text → Text → List (Text × Text) → StateManager
  unfolding is_empty join
  new_state base_dir run_id inputs = record {
    base_dir = if is_empty base_dir then join h.temp_dir (codes "yafe-" ++ run_id) else base_dir;
    run_id = run_id;
    outputs = [];
    inputs = inputs;
    tools_dir = none;
  }

  -- `Initialize`
  unfoldable pub initialize : StateManager → Exec W (Unit {0})
  unfolding join
  initialize state = do
    wrap (call (h.mkdir_all state.base_dir))
    wrap (call (h.mkdir_all (join state.base_dir (codes "_outputs"))))

  unfoldable pub prepare_step : StateManager → Text → Exec W (Unit {0})
  unfolding join
  prepare_step state step = do
    wrap (call (h.mkdir_all (step_dir state step)))
    wrap (call (h.create_file (output_file state step)))

  -- `parseOutputFile`: a file that is missing has no lines.
  unfoldable pub read_output_file : StateManager → Text → Exec W (List Text)
  unfolding join os_is_not_exist system_error
  read_output_file state step = do
    opened ← attempt (call (h.open_lines (output_file state step)))
    handle opened
        (λ scanned. elim scanned [
          | inl e ↦ raise (wrapped (system_error e))
          | inr lines ↦ pure lines
        ])
        (λ e. choose (os_is_not_exist e) (pure []) (raise (wrapped e)))

  collect_variable : Text → StepOutput → List Text → StateManager → Exec W StateManager
  unfolding find_variable set_output
  collect_variable step output lines state =
      match_option (find_variable output.name lines) (raise (of_engine missing_output))
        (λ value. pure (set_output step output.name value state))

  collect_file : Text → StepOutput → StateManager → Exec W StateManager
  unfolding join is_inside set_output os_is_not_exist
  collect_file step output state =
      let path = join state.base_dir output.path in
      choose (not (is_inside state.base_dir path)) (raise (of_engine path_traversal)) (do
        found ← attempt (call (h.stat path))
        handle found (λ _. pure (set_output step output.name path state))
            (λ e.
              choose (os_is_not_exist e) (raise (of_engine missing_output)) (raise (wrapped e))))

  -- The loop of `CollectOutputs`.
  unfoldable pub collect_each :
      Text → List Text → List StepOutput → StateManager → Exec W StateManager
  unfolding collect_variable collect_file text_eq
  collect_each step lines [] state = pure state
  collect_each step lines (output ∷ outputs) state = do
    state' ←
        choose (text_eq output.type (codes "variable")) (collect_variable step output lines state) (
          choose (text_eq output.type (codes "file")) (collect_file step output state)
            (raise (of_engine invalid_output_type)))
    collect_each step lines outputs state'

  -- The declared outputs of a step of the name; without any, the file is not read.
  unfoldable pub collect_declared : StateManager → Text → List StepOutput → Exec W StateManager
  unfolding read_output_file collect_each
  collect_declared state step [] = pure state
  collect_declared state step (output ∷ outputs) = do
    lines ← read_output_file state step
    collect_each step lines (output ∷ outputs) state

  unfoldable pub collect_outputs : StateManager → ShellStep → Exec W StateManager
  unfolding collect_declared
  collect_outputs state step = collect_declared state step.name step.outputs

  unfoldable pub cleanup : StateManager → Exec W (Unit {0})
  cleanup state = wrap (call (h.remove_all state.base_dir))
