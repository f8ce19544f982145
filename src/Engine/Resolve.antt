-- ===== src/Engine/Resolve.antt =====
-- internal/engine/template.go, `ResolveTemplates`: the references in a command give way to the values.
use yafe.Prelude.{Option, none, some, List, [], ◌∷◌}
use yafe.Text.{Text}
use yafe.Text.Scan.{replace_first}
use yafe.Result.{Result, ok, err, ◌>>=◌, of_engine, template_invalid_reference, secret_not_found}
use yafe.Engine.{ShellStep}
use yafe.Engine.Template.{TemplateRef, SecretRef, parse_templates, parse_secret_templates}
use yafe.Engine.Secret.{SecretManager, get_secret}
use yafe.Engine.State.{StateManager, get_output}

unfoldable pub resolve_outputs : StateManager → List TemplateRef → Text → Result Text
unfolding get_output replace_first
resolve_outputs state [] result = ok result
resolve_outputs state (ref ∷ refs) result = elim (get_output state ref.step_name ref.output_name) [
  | none ↦ err (of_engine template_invalid_reference)
  | some value ↦ resolve_outputs state refs (replace_first ref.raw value result)
]

unfoldable pub resolve_secrets : SecretManager → List SecretRef → Text → Result Text
unfolding get_secret replace_first
resolve_secrets secrets [] result = ok result
resolve_secrets secrets (ref ∷ refs) result = elim (get_secret ref.name secrets) [
  | none ↦ err (of_engine secret_not_found)
  | some value ↦ resolve_secrets secrets refs (replace_first ref.raw value result)
]

-- The references to secrets are those of the command in which outputs are resolved already.
unfoldable pub resolve_templates : Text → StateManager → Option SecretManager → Result Text
unfolding resolve_outputs resolve_secrets parse_templates parse_secret_templates
resolve_templates input state secrets = do
  result ← resolve_outputs state (parse_templates input) input
  elim secrets [
    | none ↦ ok result
    | some manager ↦ resolve_secrets manager (parse_secret_templates result) result
  ]

-- The method of `ShellStep`
unfoldable pub resolve_step : ShellStep → StateManager → SecretManager → Result ShellStep
unfolding resolve_templates
resolve_step step state secrets = do
  cmd ← resolve_templates step.cmd state (some secrets)
  ok (record step { cmd = cmd })
