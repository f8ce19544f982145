-- ===== src/Engine/Shell.antt =====
-- internal/engine/step_shell.go: a step becomes a script, which a shell runs with the environment of
-- the step. The standard streams are left out.
use yafe.Prelude.{none, some, List, [], ◌∷◌, ◌++◌, map, if◌then◌else◌}
use yafe.Text.{Text, codes, is_empty, trim_space, has_prefix}
use yafe.Text.Paths.{join}
use yafe.Text.Scan.{strip}
use yafe.Result.{script_creation, script_executable, script_io, script_execution}
use yafe.Exec.{Exec, pure, choose, ◌>>=◌, ◌>>◌}
use yafe.Engine.{ShellStep}
use yafe.Engine.Host.{Host, call, join_error, deferring}
use yafe.Engine.State.{StateManager, output_file}

-- `key=value`
abbrev pub binding : Text → Text → Text
binding key value = key ++ (b'=' ∷ value)

-- The first `PATH` gets the directory of the tools in front.
unfoldable pub prepend_path : Text → List Text → List Text
unfolding strip
prepend_path dir [] = []
prepend_path dir (entry ∷ env) = elim (strip (codes "PATH=") entry) [
  | none ↦ entry ∷ prepend_path dir env
  | some path ↦ (codes "PATH=" ++ (dir ++ (b':' ∷ path))) ∷ env
]

module _ {W : Type 0} (h : Host W) where
  input_bindings : List (Text × Text) → List Text
  input_bindings =
      map (λ (input : Text × Text). binding (codes "YAFE_INPUT_" ++ h.to_upper input.0) input.1)

  -- `cmd.Env`, from the environment of the program
  unfoldable pub step_env : StateManager → ShellStep → List Text → List Text
  unfolding prepend_path input_bindings is_empty join
  step_env state step environ =
      let own = environ ++ step.env in
      let with_tools : List Text = elim state.tools_dir [
        | none ↦ own
        | some dir ↦ prepend_path dir own
      ] in
      let with_inputs = with_tools ++ input_bindings state.inputs in
      if is_empty step.name
      then with_inputs
      else with_inputs
        ++ (binding (codes "YAFE_STATE") state.base_dir
            ∷ binding (codes "YAFE_OUTPUT") (output_file state step.name)
            ∷ [])

  unfoldable pub script_content : ShellStep → Text
  unfolding trim_space
  script_content step =
      codes "#!/usr/bin/env "
      ++ (step.shell ++ (codes "\nset -euo pipefail\n" ++ (trim_space step.cmd ++ codes "\n")))

  run_script : StateManager → ShellStep → Text → Exec W (Unit {0})
  unfolding step_env
  run_script state step path w =
      join_error script_execution
        (call (
          h.run_command (record {
            name = codes "/usr/bin/env";
            arguments = step.shell ∷ path ∷ [];
            dir = state.base_dir;
            env = step_env state step (h.environ w);
          })))
        w

  -- `Execute`: a command that is a comment is not run, and a script that was made is removed.
  unfoldable pub execute : StateManager → ShellStep → Exec W (Unit {0})
  unfolding run_script script_content trim_space has_prefix
  execute state step = choose (has_prefix (trim_space step.cmd) (codes "#")) (pure tt) (do
    path ← join_error script_creation (
        call (h.create_temp (codes "flow-" ++ (h.pid ++ (b'-' ∷ (state.run_id ++ codes "-*.sh"))))))
    deferring (call (h.remove path)) (do
      join_error script_executable (call (h.chmod path))
      join_error script_io (call (h.write_string path (script_content step)))
      join_error script_io (call (h.sync path))
      run_script state step path))
