-- ===== src/Engine/Validate/WellFormed.antt =====
-- `ValidateFlow` accepts exactly the well-formed flows.
use yafe.Prelude.{◌≡◌, ◌↔◌, ◌⊎◌, List, [], ◌∷◌, arith, All, In, if◌then◌else◌}
use yafe.Text.{Text}
use yafe.Text.Members.{member_iff}
use yafe.Result.{Result, ok, ◌>>◌}
use yafe.Engine.{ShellStep, Flow}
use yafe.Engine.Template.{SecretRef, parse_secret_templates}
use yafe.Engine.Validate.{
  has_templates, secret_names, check_secrets, check_step_secrets, validate_flow, validate_tools,
  validate_secrets, validate_steps, validate_template_references, validate_secret_references,
}
use yafe.Engine.Validate.Declared.{
  Distinct, named, GoodTool, GoodSecret, GoodStep, tool_names, validate_tools_iff,
  validate_secrets_iff, validate_steps_iff, Fresh-none,
}
use yafe.Engine.Validate.Linked.{Linked}
use yafe.Engine.Validate.References.{templates_iff}

-- A reference to a secret of the flow or of the step.
abbrev pub IsKnown : Flow → ShellStep → SecretRef → Type 0
IsKnown flow step ref =
    In ref.name (secret_names flow.secrets) ⊎ In ref.name (secret_names step.secrets)

abbrev pub Secretive : Flow → ShellStep → Type 0
Secretive flow step = All (IsKnown flow step) (parse_secret_templates step.cmd)

check_secrets_iff :
    (of_flow of_step : List Text) (refs : List SecretRef)
    → (check_secrets of_flow of_step refs ≡ ok tt)
      ↔ All (λ (ref : SecretRef). In ref.name of_flow ⊎ In ref.name of_step) refs
unfolding check_secrets
check_secrets_iff of_flow of_step [] = ground arith
check_secrets_iff of_flow of_step (ref ∷ refs) = ground (
  arith,
  member_iff ref.name of_flow,
  member_iff ref.name of_step,
  check_secrets_iff of_flow of_step refs,
)

check_step_secrets_iff :
    (flow : Flow) (steps : List ShellStep)
    → (check_step_secrets (secret_names flow.secrets) steps ≡ ok tt) ↔ All (Secretive flow) steps
unfolding check_step_secrets
check_step_secrets_iff flow [] = ground arith
check_step_secrets_iff flow (step ∷ steps) = ground (
  arith,
  check_step_secrets_iff flow steps,
  check_secrets_iff (secret_names flow.secrets) (secret_names step.secrets)
      (parse_secret_templates step.cmd),
)

five_checks :
    (a b c d e : Result (Unit {0}))
    → ((do a; b; c; d; e) ≡ ok tt)
      ↔ ((a ≡ ok tt) × (b ≡ ok tt) × (c ≡ ok tt) × (d ≡ ok tt) × (e ≡ ok tt))
five_checks a b c d e = ground arith

-- A flow whose tools, secrets and steps are well-formed and have distinct names, whose references to
-- outputs are to outputs that an earlier step declares, and whose references to secrets are to
-- secrets of the flow or of the step.
abbrev pub WellFormed : Flow → Type 0
WellFormed flow =
    (All GoodTool flow.tools × Distinct (tool_names flow.tools))
    × (All GoodSecret flow.secrets × Distinct (secret_names flow.secrets))
    × (All GoodStep flow.steps × Distinct (named flow.steps))
    × Linked [] flow.steps
    × All (Secretive flow) flow.steps

-- `ValidateFlow` accepts a flow exactly if it is well-formed: the tools, the secrets of the flow and
-- of each step, and the outputs are as they must be, no two of a kind have one name, every reference
-- to an output is to one that an earlier step declares, and every reference to a secret is to one of
-- the flow or of the step.
pub validate_flow_iff : (flow : Flow) → (validate_flow flow ≡ ok tt) ↔ WellFormed flow
unfolding validate_flow validate_template_references validate_secret_references
validate_flow_iff flow =
    let checks =
      five_checks (validate_tools [] flow.tools) (validate_secrets [] flow.secrets)
        (validate_steps [] flow.steps)
        (if has_templates flow.steps then validate_template_references flow else ok tt)
        (validate_secret_references flow) in
    let tools = validate_tools_iff [] flow.tools in
    let secrets = validate_secrets_iff [] flow.secrets in
    let steps = validate_steps_iff [] flow.steps in
    let known = check_step_secrets_iff flow flow.steps in
    (
      λ h.
          let (t, s, p, r, k) = checks.0 h in
          let (good, _, distinct) = tools.0 t in
          let (good', _, distinct') = secrets.0 s in
          let (good'', _, distinct'') = steps.0 p in
          (
            (good, distinct),
            (good', distinct'),
            (good'', distinct''),
            (templates_iff flow distinct'').0 r,
            known.0 k,
          ),
      λ ((good, distinct), (good', distinct'), (good'', distinct''), linked, k). checks.1 (
        tools.1 (good, Fresh-none (tool_names flow.tools), distinct),
        secrets.1 (good', Fresh-none (secret_names flow.secrets), distinct'),
        steps.1 (good'', Fresh-none (named flow.steps), distinct''),
        (templates_iff flow distinct'').1 linked,
        known.1 k,
      ),
    )
