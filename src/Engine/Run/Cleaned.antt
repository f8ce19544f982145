-- ===== src/Engine/Run/Cleaned.antt =====
-- The last thing that a run does is to remove the state directory.
use yafe.Prelude.{◌≡◌, refl, ap, ◌∙◌, none, some, List, []}
use yafe.Text.{Text}
use yafe.Result.{Error, Result, ok, err, joined, state_initialize}
use yafe.Exec.{Exec, bind_value, bind_error}
use yafe.Engine.{RunsOn, ToolDeclaration, Flow}
use yafe.Engine.Host.{Host, join_error, deferring}
use yafe.Engine.State.{StateManager, new_state, initialize, cleanup}
use yafe.Engine.Run.{RunOptions, run_initialized, run_prepared, run}

-- The inputs of a run.
abbrev pub given : RunOptions → List (Text × Text)
given none = []
given (some inputs) = inputs

module _ {W : Type 0} (h : Host W)
    (resolve_tools : Text → List ToolDeclaration → Exec W (Unit {0})) where
  prepared_cleans_up :
      (runs_on : RunsOn) (flow : Flow) (state : StateManager) (w : W)
      → (initialize h state w).0 ≡ ok tt
      → (w1 : W) × ((run_prepared h resolve_tools runs_on flow state w).1
          ≡ (h.remove_all state.base_dir w1).1)
  unfolding run_prepared cleanup
  prepared_cleans_up runs_on flow state w e =
      let first = join_error state_initialize (initialize h state) in
      let last = deferring (cleanup h state) (run_initialized h resolve_tools runs_on flow state) in
      let begun : (first w).0 ≡ ok tt = rw (join_error, e) refl in
      (
        (run_initialized h resolve_tools runs_on flow state (first w).1).1,
        ap (λ (r : Result (Unit {0}) × W). r.1) (bind_value first (λ u. last) w tt begun),
      )

  prepared_fails :
      (runs_on : RunsOn) (flow : Flow) (state : StateManager) (w : W) (e : Error)
      → (initialize h state w).0 ≡ err e
      → run_prepared h resolve_tools runs_on flow state w
        ≡ (err (joined state_initialize e), (initialize h state w).1)
  unfolding run_prepared
  prepared_fails runs_on flow state w c e =
      let first = join_error state_initialize (initialize h state) in
      let last = deferring (cleanup h state) (run_initialized h resolve_tools runs_on flow state) in
      bind_error first (λ u. last) w (joined state_initialize c) (rw (join_error, e) refl)

  run-run_prepared :
      (runs_on : RunsOn) (flow : Flow) (options : RunOptions) (w : W)
      → flow.runs_on ≡ some runs_on
      → run h resolve_tools (some flow) options w
        ≡ run_prepared h resolve_tools runs_on flow
            (new_state h flow.state_dir (h.run_id w).0 (given options))
            (h.run_id w).1
  unfolding run
  run-run_prepared runs_on flow none w e = rw e refl
  run-run_prepared runs_on flow (some inputs) w e = rw e refl

  -- A run whose state directory was made removes the directory as the last thing that it does, however
  -- it ends and whatever failed; a run whose directory could not be made fails with that error, and
  -- does nothing else.
  pub run_cleans_up :
      (runs_on : RunsOn) (flow : Flow) (options : RunOptions) (w : W)
      → flow.runs_on ≡ some runs_on
      → let state = new_state h flow.state_dir (h.run_id w).0 (given options) in
        let made = initialize h state (h.run_id w).1 in
        let ended = run h resolve_tools (some flow) options w in
        (made.0 ≡ ok tt → (w1 : W) × (ended.1 ≡ (h.remove_all state.base_dir w1).1))
        × ((e : Error) → made.0 ≡ err e → ended ≡ (err (joined state_initialize e), made.1))
  run_cleans_up runs_on flow options w e =
      let state = new_state h flow.state_dir (h.run_id w).0 (given options) in
      let whole = run-run_prepared runs_on flow options w e in
      (
        λ made.
            let (w1, ends) = prepared_cleans_up runs_on flow state (h.run_id w).1 made in
            (w1, ap (λ (r : Result (Unit {0}) × W). r.1) whole ∙ ends),
        λ c made. whole ∙ prepared_fails runs_on flow state (h.run_id w).1 c made,
      )
