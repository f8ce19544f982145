-- ===== src/Engine/Run.antt =====
-- internal/engine/core.go and internal/engine/run_host.go: the run of a flow, step by step. The tools
-- are resolved by a procedure that is an argument.

pub mod Cleaned
pub mod Order
pub mod References
use yafe.Prelude.{ℕ, suc, Bool, true, false, ◌+◌, Option, none, some, List, [], ◌∷◌, if◌then◌else◌}
use yafe.Text.{Text, codes, is_empty}
use yafe.Text.Paths.{join}
use yafe.Result.{
  Error, Result, ok, err, wrapped, joined, of_engine, message, step_execution, output_not_produced,
  step_incompatible, state_initialize, validation_not_nil, runs_on_bootstrap, load_read,
}
use yafe.Exec.{Exec, pure, raise, lift, wrap, attempt, handle, match_option, choose, ◌>>=◌, ◌>>◌}
use yafe.Engine.{RunsOn, host, ShellStep, ToolDeclaration, Flow}
use yafe.Engine.Host.{Host, system_error, call, join_error, deferring}
use yafe.Engine.Secret.{SecretManager, load_secrets, mask}
use yafe.Engine.State.{StateManager, new_state, initialize, prepare_step, collect_outputs, cleanup}
use yafe.Engine.Shell.{execute}
use yafe.Engine.Resolve.{resolve_step}

-- `RunsOnHost`: starting and stopping do nothing, and every step is a `ShellStep`.
abbrev pub supports : RunsOn → ShellStep → Bool
supports host step = true

abbrev pub bootstrap : {W : Type 0} → RunsOn → Exec W (Unit {0})
bootstrap host = pure tt

abbrev pub teardown : {W : Type 0} → RunsOn → Exec W (Unit {0})
teardown host = pure tt

-- The options of a run: the inputs, where they are given.
abbrev pub RunOptions : Type 0
RunOptions = Option (List (Text × Text))

module _ {W : Type 0} (h : Host W) where
  -- `ctx.Err()` before a step
  check_context : ℕ → Exec W (Unit {0})
  unfolding system_error
  check_context n w =
      match_option (h.context_error w) (pure tt)
        (λ e. raise (joined (step_execution n) (system_error e))) w

  -- The run of a resolved step; its error is a text in which the secrets are masked.
  execute_masked : SecretManager → ℕ → ShellStep → StateManager → Exec W (Unit {0})
  unfolding execute mask
  execute_masked secrets n step state = do
    executed ← attempt (execute h state step)
    handle executed pure (λ e.
        raise (joined (step_execution n) (of_engine (message (mask secrets (h.error_text e))))))

  -- The body of the loop over the steps up to the end of the step's command, for the step of a number
  -- from 1.
  execute_step : RunsOn → SecretManager → ℕ → ShellStep → StateManager → Exec W (Unit {0})
  unfolding check_context load_secrets resolve_step is_empty prepare_step execute_masked
  execute_step runs_on flow_secrets n step state = do
    check_context n
    choose (supports runs_on step) (pure tt) (raise (of_engine step_incompatible))
    secrets ← join_error (step_execution n) (load_secrets h flow_secrets step.secrets)
    resolved ← join_error (step_execution n) (lift (resolve_step step state secrets))
    join_error (step_execution n)
        (choose (is_empty step.name) (pure tt) (prepare_step h state step.name))
    execute_masked secrets n resolved state

  -- The whole body, with the outputs that the step left.
  unfoldable pub run_step :
      RunsOn → SecretManager → ℕ → ShellStep → StateManager → Exec W StateManager
  unfolding execute_step collect_outputs
  run_step runs_on flow_secrets n step state = do
    execute_step runs_on flow_secrets n step state
    join_error (output_not_produced n) (collect_outputs h state step)

  unfoldable pub run_steps :
      RunsOn → SecretManager → ℕ → List ShellStep → StateManager → Exec W StateManager
  unfolding run_step
  run_steps runs_on secrets n [] state = pure state
  run_steps runs_on secrets n (step ∷ steps) state = do
    state' ← run_step runs_on secrets n step state
    run_steps runs_on secrets (suc n) steps state'

  module _ (resolve_tools : Text → List ToolDeclaration → Exec W (Unit {0})) where
    -- The tools of a flow that has any, and the state that knows where they are.
    prepare_tools : List ToolDeclaration → StateManager → Exec W StateManager
    prepare_tools [] state = pure state
    prepare_tools (tool ∷ tools) state =
        let dir = join state.base_dir (codes "_tools") in
        do
          wrap (call (h.mkdir_all dir))
          wrap (resolve_tools dir (tool ∷ tools))
          pure (record state { tools_dir = some dir })

    -- What a run does with an initialized state.
    unfoldable pub run_initialized : RunsOn → Flow → StateManager → Exec W (Unit {0})
    unfolding prepare_tools run_steps load_secrets join
    run_initialized runs_on flow state = do
      state' ← prepare_tools flow.tools state
      secrets ← wrap (load_secrets h [] flow.secrets)
      join_error runs_on_bootstrap (bootstrap runs_on)
      deferring (teardown runs_on) (do run_steps runs_on secrets 1 flow.steps state'; pure tt)

    run_prepared : RunsOn → Flow → StateManager → Exec W (Unit {0})
    unfolding run_initialized initialize cleanup
    run_prepared runs_on flow state = do
      join_error state_initialize (initialize h state)
      deferring (cleanup h state) (run_initialized runs_on flow state)

    -- `Run`; the identifier is made after the flow is looked at.
    unfoldable pub run : Option Flow → RunOptions → Exec W (Unit {0})
    unfolding run_prepared new_state
    run flow options = match_option flow (raise (of_engine validation_not_nil)) (λ f.
        match_option f.runs_on (raise (of_engine validation_not_nil)) (λ runs_on w.
          let (id, w') = h.run_id w in
          let inputs : List (Text × Text) = elim options [ none ↦ [] | some given ↦ given ] in
          run_prepared runs_on f (new_state h f.state_dir id inputs) w'))

  -- `LoadFromFile`, with `LoadBytes` as an argument
  unfoldable pub load_from_file : (Text → Result Flow) → Text → Exec W Flow
  load_from_file load_bytes filename = do
    content ← join_error load_read (call (h.read_file filename))
    lift (load_bytes content)
