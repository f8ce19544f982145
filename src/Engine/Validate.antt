-- ===== src/Engine/Validate.antt =====
-- internal/engine/parser.go, `ValidateFlow`, and the checks of references in
-- internal/engine/template.go.
pub mod Declared
pub mod Linked
pub mod References
pub mod WellFormed
use yafe.Prelude.{
  ℕ, zero, suc, Bool, true, false, not, ◌&&◌, ◌||◌, Option, none, some, List, [], ◌∷◌, map, leb,
  if◌then◌else◌, less_than_one,
}
use yafe.Text.{Text, codes, text_eq, is_empty, has_suffix}
use yafe.Text.Members.{member}
use yafe.Text.Case.{to_lower}
use yafe.Result.{
  Result, ok, err, ◌>>=◌, ◌>>◌, reject, of_engine, duplicate_step_name, output_name_missing,
  invalid_output_type, missing_output_path, outputs_without_name, template_invalid_reference,
  secret_name_missing, secret_not_found, secret_source_empty, duplicate_secret, tool_path_required,
  tool_path_forbidden, duplicate_tool, tool_name_required, tool_invalid_retries,
}
use yafe.Engine.{
  StepOutput, is_valid_output_type, SecretDeclaration, ToolDeclaration, ShellStep, Flow,
}
use yafe.Engine.Template.{TemplateRef, SecretRef, parse_templates, parse_secret_templates}

abbrev pub is_nil : {A : Type 0} → List A → Bool
is_nil [] = true
is_nil (x ∷ xs) = false

unfoldable pub is_archive_url : Text → Bool
unfolding to_lower has_suffix
is_archive_url url =
    has_suffix (to_lower url) (codes ".tar.gz")
    || has_suffix (to_lower url) (codes ".tgz")
    || has_suffix (to_lower url) (codes ".tar.bz2")
    || has_suffix (to_lower url) (codes ".tar")
    || has_suffix (to_lower url) (codes ".zip")

-- `validateTools`, after the tools of the given names.
unfoldable pub validate_tools : List Text → List ToolDeclaration → Result (Unit {0})
unfolding is_empty member less_than_one is_archive_url
validate_tools seen [] = ok tt
validate_tools seen (tool ∷ tools) = do
  reject (is_empty tool.name) tool_name_required
  reject (member tool.name seen) duplicate_tool
  reject (less_than_one tool.retries) tool_invalid_retries
  reject (not (is_empty tool.url) && is_archive_url tool.url && is_empty tool.path)
      tool_path_required
  reject (not (is_empty tool.url) && not (is_archive_url tool.url) && not (is_empty tool.path))
      tool_path_forbidden
  validate_tools (tool.name ∷ seen) tools

-- `validateSecrets`, after the secrets of the given names.
unfoldable pub validate_secrets : List Text → List SecretDeclaration → Result (Unit {0})
unfolding is_empty member
validate_secrets seen [] = ok tt
validate_secrets seen (secret ∷ secrets) = do
  reject (is_empty secret.name) secret_name_missing
  reject (member secret.name seen) duplicate_secret
  reject (is_empty secret.source.env && is_empty secret.source.file) secret_source_empty
  validate_secrets (secret.name ∷ seen) secrets

unfoldable pub validate_outputs : List StepOutput → Result (Unit {0})
unfolding is_empty is_valid_output_type text_eq
validate_outputs [] = ok tt
validate_outputs (output ∷ outputs) = do
  reject (is_empty output.name) output_name_missing
  reject (not (is_valid_output_type output.type)) invalid_output_type
  reject (text_eq output.type (codes "file") && is_empty output.path) missing_output_path
  validate_outputs outputs

-- The loop of `ValidateFlow` over the steps, after steps of the given names.
unfoldable pub validate_steps : List Text → List ShellStep → Result (Unit {0})
unfolding is_empty member validate_outputs validate_secrets
validate_steps seen [] = ok tt
validate_steps seen (step ∷ steps) = do
  reject (not (is_empty step.name) && member step.name seen) duplicate_step_name
  validate_outputs step.outputs
  reject (not (is_nil step.outputs) && is_empty step.name) outputs_without_name
  validate_secrets [] step.secrets
  validate_steps (if is_empty step.name then seen else step.name ∷ seen) steps

-- `hasTemplates`
unfoldable pub has_templates : List ShellStep → Bool
unfolding parse_templates
has_templates [] = false
has_templates (step ∷ steps) = not (is_nil (parse_templates step.cmd)) || has_templates steps

-- `stepIndex[name]` and `stepOutputs[name]`, as the last step of the name sets them.
unfoldable pub find_step : Text → ℕ → List ShellStep → Option (ℕ × List Text)
unfolding text_eq is_empty
find_step name i [] = none
find_step name i (step ∷ steps) = elim (find_step name (suc i) steps) [
  | some found ↦ some found
  | none ↦
      if not (is_empty step.name) && text_eq step.name name
      then some (i, map (λ (o : StepOutput). o.name) step.outputs)
      else none
]

-- The references of the step at an index.
unfoldable pub check_references : List ShellStep → ℕ → List TemplateRef → Result (Unit {0})
unfolding find_step member
check_references all i [] = ok tt
check_references all i (ref ∷ refs) = elim (find_step ref.step_name 0 all) [
  | none ↦ err (of_engine template_invalid_reference)
  | some (index, outputs) ↦ do
    reject (leb i index) template_invalid_reference
    reject (not (member ref.output_name outputs)) template_invalid_reference
    check_references all i refs
]

unfoldable pub check_steps : List ShellStep → ℕ → List ShellStep → Result (Unit {0})
unfolding check_references parse_templates
check_steps all i [] = ok tt
check_steps all i (step ∷ steps) = do
  check_references all i (parse_templates step.cmd)
  check_steps all (suc i) steps

unfoldable pub validate_template_references : Flow → Result (Unit {0})
unfolding check_steps
validate_template_references flow = check_steps flow.steps 0 flow.steps

abbrev pub secret_names : List SecretDeclaration → List Text
secret_names = map (λ (s : SecretDeclaration). s.name)

unfoldable pub check_secrets : List Text → List Text → List SecretRef → Result (Unit {0})
unfolding member
check_secrets of_flow of_step [] = ok tt
check_secrets of_flow of_step (ref ∷ refs) = do
  reject (not (member ref.name of_flow) && not (member ref.name of_step)) secret_not_found
  check_secrets of_flow of_step refs

unfoldable pub check_step_secrets : List Text → List ShellStep → Result (Unit {0})
unfolding check_secrets parse_secret_templates
check_step_secrets of_flow [] = ok tt
check_step_secrets of_flow (step ∷ steps) = do
  check_secrets of_flow (secret_names step.secrets) (parse_secret_templates step.cmd)
  check_step_secrets of_flow steps

unfoldable pub validate_secret_references : Flow → Result (Unit {0})
unfolding check_step_secrets
validate_secret_references flow = check_step_secrets (secret_names flow.secrets) flow.steps

unfoldable pub validate_flow : Flow → Result (Unit {0})
unfolding validate_tools validate_secrets validate_steps has_templates validate_template_references
    validate_secret_references
validate_flow flow = do
  validate_tools [] flow.tools
  validate_secrets [] flow.secrets
  validate_steps [] flow.steps
  if has_templates flow.steps then validate_template_references flow else ok tt
  validate_secret_references flow
