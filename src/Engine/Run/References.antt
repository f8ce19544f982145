-- ===== src/Engine/Run/References.antt =====
-- A run of a validated flow never meets an invalid reference: every output that a step refers to was
-- collected when the earlier step that declares it ended.
use mathlib.Core.Path.{subst}
use mathlib.Core.List.{append_assoc, append-nil}
use yafe.Prelude.{In-append, ℕ, suc, ◌≡◌, refl, sym, inl, inr, List, [], ◌∷◌, ◌++◌, arith, All, In}
use yafe.Text.{Text}
use yafe.Text.Scan.{replace_first}
use yafe.Result.{ok, Result-cases}
use yafe.Engine.{ShellStep, RunsOn, Flow}
use yafe.Engine.Host.{Host}
use yafe.Engine.Template.{TemplateRef, parse_templates}
use yafe.Engine.Secret.{SecretManager}
use yafe.Engine.State.{StateManager, collect_outputs}
use yafe.Engine.State.Collect.{HasOutput, outputs_kept}
use yafe.Engine.Resolve.{resolve_outputs}
use yafe.Engine.Run.{execute_step, run_step, run_steps}
use yafe.Engine.Validate.{validate_flow}
use yafe.Engine.Validate.Linked.{IsDeclared, Linked, output_names}
use yafe.Engine.Validate.WellFormed.{validate_flow_iff}

-- Every output that the steps declare has a value.
abbrev Ready : List ShellStep → StateManager → Type 0
Ready steps state =
    (step : ShellStep)
    → In step steps
    → (o : Text) → In o (output_names step)
    → HasOutput state step.name o

Ready-snoc :
    (before : List ShellStep) (step : ShellStep) (state : StateManager)
    → Ready before state
    → ((o : Text) → In o (output_names step) → HasOutput state step.name o)
    → Ready (before ++ (step ∷ [])) state
Ready-snoc before step state ready has s i o k = elim (In-append s before (step ∷ []) i) [
  | inl j ↦ ready s j o k
  | inr (inl e) ↦ subst (λ x. In o (output_names x) → HasOutput state x.name o) (sym e) (has o) k
  | inr (inr j) ↦ absurd j
]

-- The references to steps whose outputs are there are resolved.
resolved :
    (earlier : List ShellStep) (state : StateManager) (refs : List TemplateRef) (input : Text)
    → Ready earlier state
    → All (IsDeclared earlier) refs
    → (result : Text) × (resolve_outputs state refs input ≡ ok result)
unfolding resolve_outputs
resolved earlier state [] input ready h = (input, refl)
resolved earlier state (ref ∷ refs) input ready ((step, m, full, same, o), h) =
    let (value, e) =
      subst (λ n. HasOutput state n ref.output_name) same (ready step m ref.output_name o) in
    let (result, e') = resolved earlier state refs (replace_first ref.raw value input) ready h in
    (result, rw (resolve_outputs, e) e')

Linked-append :
    (before front : List ShellStep) (step : ShellStep) (back : List ShellStep)
    → Linked before (front ++ (step ∷ back))
    → All (IsDeclared (before ++ front)) (parse_templates step.cmd)
Linked-append before [] step back l =
    subst (λ x. All (IsDeclared x) (parse_templates step.cmd)) (sym (append-nil before)) l.0
Linked-append before (s ∷ front) step back l =
    subst (λ x. All (IsDeclared x) (parse_templates step.cmd)) (append_assoc before (s ∷ []) front)
      (Linked-append (before ++ (s ∷ [])) front step back l.1)

module _ {W : Type 0} (h : Host W) (runs_on : RunsOn) (secrets : SecretManager) where
  -- A step that ends well ends with the collection of its outputs.
  run_step_collects :
      (n : ℕ) (step : ShellStep) (state state' : StateManager) (w : W)
      → (run_step h runs_on secrets n step state w).0 ≡ ok state'
      → (w' : W) × ((collect_outputs h state step w').0 ≡ ok state')
  unfolding run_step
  run_step_collects n step state state' w e =
      let first = execute_step h runs_on secrets n step state in
      elim (Result-cases (first w).0) [
        | inr (c, e1) ↦ absurd (ground arith)
        | inl (u, e1) ↦ elim (Result-cases (collect_outputs h state step (first w).1).0) [
          | inr (c, e2) ↦ absurd (ground arith)
          | inl (s, e2) ↦ ((first w).1, ground arith)
        ]
      ]

  -- After steps that ended well, the outputs that they and the steps before them declare are there.
  run_steps-Ready :
      (before steps : List ShellStep) (n : ℕ) (state state' : StateManager) (w : W)
      → Ready before state
      → (run_steps h runs_on secrets n steps state w).0 ≡ ok state'
      → Ready (before ++ steps) state'
  unfolding run_steps
  run_steps-Ready before [] n state state' w ready e =
      let same : state ≡ state' = ground arith in
      subst (λ s. Ready (before ++ []) s) same
        (subst (λ x. Ready x state) (sym (append-nil before)) ready)
  run_steps-Ready before (step ∷ steps) n state state' w ready e =
      let m = run_step h runs_on secrets n step state in
      elim (Result-cases (m w).0) [
        | inr (c, e1) ↦ absurd (ground arith)
        | inl (middle, e1) ↦
            let (w', collected) = run_step_collects n step state middle w e1 in
            let (keeps, has) = outputs_kept h step state middle w' collected in
            let ready' : Ready (before ++ (step ∷ [])) middle =
              Ready-snoc before step middle (λ s i o k. keeps s.name o (ready s i o k)) has in
            subst (λ x. Ready x state') (append_assoc before (step ∷ []) steps)
              (run_steps-Ready (before ++ (step ∷ [])) steps (suc n) middle state' (m w).1 ready'
                (ground arith))
      ]

-- In a flow that `ValidateFlow` accepts, when the steps before a step have ended well, every reference
-- to an output in the command of the step has a value: its resolution does not fail, whatever the
-- system and the secrets are.
pub references_resolve :
    {W : Type 0} (h : Host W) (flow : Flow) (runs_on : RunsOn) (secrets : SecretManager)
    (front : List ShellStep) (step : ShellStep) (back : List ShellStep) (start state : StateManager)
    (w : W)
    → validate_flow flow ≡ ok tt
    → flow.steps ≡ front ++ (step ∷ back)
    → (run_steps h runs_on secrets 1 front start w).0 ≡ ok state
    → (cmd : Text) × (resolve_outputs state (parse_templates step.cmd) step.cmd ≡ ok cmd)
references_resolve h flow runs_on secrets front step back start state w valid split ran =
    let (_, _, _, linked, _) = (validate_flow_iff flow).0 valid in
    resolved front state (parse_templates step.cmd) step.cmd
      (run_steps-Ready h runs_on secrets [] front 1 start state w (λ s m. absurd m) ran)
      (Linked-append [] front step back (subst (λ x. Linked [] x) split linked))
