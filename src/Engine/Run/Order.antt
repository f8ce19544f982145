-- ===== src/Engine/Run/Order.antt =====
-- The steps of a run take place in their order, up to the first that fails, and in the end the state
-- directory is removed.
use yafe.Prelude.{
  ℕ, suc, ◌+◌, ◌≡◌, refl, sym, ap, ◌∙◌, inl, inr, List, [], ◌∷◌, ◌++◌, arith, length,
}
use mathlib.Core.Path.{subst}
use yafe.Result.{Error, Result, ok, err, Result-cases}
use yafe.Exec.{bind_value, bind_error}
use yafe.Engine.{ShellStep, RunsOn}
use yafe.Engine.Host.{Host}
use yafe.Engine.Secret.{SecretManager}
use yafe.Engine.State.{StateManager}
use yafe.Engine.Run.{run_step, run_steps}

module _ {W : Type 0} (h : Host W) (runs_on : RunsOn) (secrets : SecretManager) where
  -- A step that ends well leaves the rest to the other steps, and one that fails ends the run.
  run_steps-cons :
      (n : ℕ) (s : ShellStep) (steps : List ShellStep) (start state : StateManager) (w : W)
      → (run_step h runs_on secrets n s start w).0 ≡ ok state
      → run_steps h runs_on secrets n (s ∷ steps) start w
        ≡ run_steps h runs_on secrets (suc n) steps state (run_step h runs_on secrets n s start w).1
  unfolding run_steps
  run_steps-cons n s steps start state w e =
      bind_value (run_step h runs_on secrets n s start)
        (λ s'. run_steps h runs_on secrets (suc n) steps s') w state e

  run_steps_err :
      (n : ℕ) (s : ShellStep) (steps : List ShellStep) (start : StateManager) (w : W) (e : Error)
      → (run_step h runs_on secrets n s start w).0 ≡ err e
      → run_steps h runs_on secrets n (s ∷ steps) start w
        ≡ (err e, (run_step h runs_on secrets n s start w).1)
  unfolding run_steps
  run_steps_err n s steps start w c e =
      bind_error (run_step h runs_on secrets n s start)
        (λ s'. run_steps h runs_on secrets (suc n) steps s') w c e

  run_steps_nil :
      (n : ℕ) (start : StateManager) (w : W)
      → run_steps h runs_on secrets n [] start w ≡ (ok start, w)
  unfolding run_steps
  run_steps_nil n start w = refl

  -- If the steps in front end well and the next one fails, the run fails with the error of that step,
  -- which is run with the number of its place, and the machine is left as that step leaves it: no
  -- later step has begun.
  pub stops_at_failure :
      (front : List ShellStep) (step : ShellStep) (back : List ShellStep) (n : ℕ)
      (start state : StateManager) (w w1 w2 : W) (e : Error)
      → run_steps h runs_on secrets n front start w ≡ (ok state, w1)
      → run_step h runs_on secrets (n + length front) step state w1 ≡ (err e, w2)
      → run_steps h runs_on secrets n (front ++ (step ∷ back)) start w ≡ (err e, w2)
  stops_at_failure [] step back n start state w w1 w2 e ran fails =
      let (same, same') : (start ≡ state) × (w ≡ w1) = ground (arith, run_steps_nil n start w) in
      let here : run_step h runs_on secrets n step start w ≡ (err e, w2) = rw same (
        rw same' (
          subst (λ k. run_step h runs_on secrets k step state w1 ≡ (err e, w2)) (omega arith)
            fails)) in
      run_steps_err n step back start w e (ap (λ (r : Result StateManager × W). r.0) here)
      ∙ ap (λ (r : Result StateManager × W). (err e, r.1)) here
  stops_at_failure (s ∷ front) step back n start state w w1 w2 e ran fails =
      elim (Result-cases (run_step h runs_on secrets n s start w).0) [
        | inr (c, e1) ↦ absurd (ground (arith, run_steps_err n s front start w c e1))
        | inl (middle, e1) ↦
            run_steps-cons n s (front ++ (step ∷ back)) start middle w e1
            ∙ stops_at_failure front step back (suc n) middle state
                (run_step h runs_on secrets n s start w).1 w1 w2 e
                (sym (run_steps-cons n s front start middle w e1) ∙ ran)
                (subst (λ k. run_step h runs_on secrets k step state w1 ≡ (err e, w2)) (omega arith)
                  fails)
      ]
