-- ===== src/Engine/Validate/Declared.antt =====
-- What the loops over tools, secrets and outputs accept.
use yafe.Prelude.{
  ◌≡◌, ◌≢◌, ◌↔◌, ◌⊎◌, Bool, true, false, not, ◌&&◌, List, [], ◌∷◌, map, arith, All, In,
  less_than_one, if◌then◌else◌,
}
use yafe.Text.{Text, codes, is_empty}
use yafe.Text.Laws.{text_eq_iff, is_empty_iff}
use yafe.Text.Members.{member, member_iff}
use yafe.Result.{EngineError, Result, ok, reject, ◌>>◌}
use yafe.Engine.{StepOutput, is_valid_output_type, SecretDeclaration, ToolDeclaration, ShellStep}
use yafe.Engine.Validate.{
  is_archive_url, validate_tools, validate_secrets, validate_outputs, secret_names, is_nil,
  validate_steps,
}

-- No name stands twice in the list.
abbrev pub Distinct : List Text → Type 0
Distinct [] = Unit
Distinct (n ∷ names) = (In n names → ⊥) × Distinct names

-- No name of the second list stands in the first.
abbrev pub Fresh : List Text → List Text → Type 0
Fresh seen = All (λ n. In n seen → ⊥)

pub Fresh-cons :
    (n : Text) (seen names : List Text)
    → Fresh (n ∷ seen) names ↔ (Fresh seen names × (In n names → ⊥))
Fresh-cons n seen [] = ground arith
Fresh-cons n seen (m ∷ names) = ground (arith, Fresh-cons n seen names)

abbrev pub GoodSecret : SecretDeclaration → Type 0
GoodSecret secret = (secret.name ≢ []) × ((secret.source.env ≢ []) ⊎ (secret.source.file ≢ []))

pub validate_secrets_iff :
    (seen : List Text) (secrets : List SecretDeclaration)
    → (validate_secrets seen secrets ≡ ok tt) ↔ (
        All GoodSecret secrets
        × Fresh seen (secret_names secrets)
        × Distinct (secret_names secrets))
unfolding validate_secrets
validate_secrets_iff seen [] = ground arith
validate_secrets_iff seen (secret ∷ secrets) = ground (
  arith,
  is_empty_iff secret.name,
  is_empty_iff secret.source.env,
  is_empty_iff secret.source.file,
  member_iff secret.name seen,
  validate_secrets_iff (secret.name ∷ seen) secrets,
  Fresh-cons secret.name seen (secret_names secrets),
)

-- What the two tests of the path accept.
unfoldable pub GoodUrl : ToolDeclaration → Type 0
GoodUrl tool = (tool.url ≡ []) ⊎ ((is_archive_url tool.url ≡ true) ↔ (tool.path ≢ []))

abbrev pub GoodTool : ToolDeclaration → Type 0
GoodTool tool = (tool.name ≢ []) × (less_than_one tool.retries ≡ false) × GoodUrl tool

abbrev pub tool_names : List ToolDeclaration → List Text
tool_names = map (λ (t : ToolDeclaration). t.name)

url_tests :
    (tool : ToolDeclaration)
    → ((not (is_empty tool.url) && is_archive_url tool.url && is_empty tool.path ≡ false)
        × (not (is_empty tool.url) && not (is_archive_url tool.url) && not (is_empty tool.path)
            ≡ false))
      ↔ GoodUrl tool
unfolding GoodUrl
url_tests tool = ground (arith, is_empty_iff tool.url, is_empty_iff tool.path)

five_rejections :
    (a b c d e : Bool) (e1 e2 e3 e4 e5 : EngineError) (rest : Result (Unit {0}))
    → ((do reject a e1; reject b e2; reject c e3; reject d e4; reject e e5; rest) ≡ ok tt)
      ↔ ((a ≡ false) × (b ≡ false) × (c ≡ false) × ((d ≡ false) × (e ≡ false)) × (rest ≡ ok tt))
five_rejections a b c d e e1 e2 e3 e4 e5 rest = ground arith

pub validate_tools_iff :
    (seen : List Text) (tools : List ToolDeclaration)
    → (validate_tools seen tools ≡ ok tt)
      ↔ (All GoodTool tools × Fresh seen (tool_names tools) × Distinct (tool_names tools))
unfolding validate_tools
validate_tools_iff seen [] = ground arith
validate_tools_iff seen (tool ∷ tools) =
    let tests =
      five_rejections (is_empty tool.name) (member tool.name seen) (less_than_one tool.retries) _ _
        _ _ _ _ _ (validate_tools (tool.name ∷ seen) tools) in
    let name = is_empty_iff tool.name in
    let known = member_iff tool.name seen in
    let others = validate_tools_iff (tool.name ∷ seen) tools in
    let fresh = Fresh-cons tool.name seen (tool_names tools) in
    (
      λ h.
          let (a, b, c, d, r) = tests.0 h in
          let (good, unseen, distinct) = others.0 r in
          let (unseen', new) = fresh.0 unseen in
          (
            (((ground arith), c, (url_tests tool).0 d), good),
            ((ground arith), unseen'),
            (new, distinct),
          ),
      λ (((n, c, u), good), (unknown, unseen), (new, distinct)). tests.1 (
        ground arith,
        ground arith,
        c,
        (url_tests tool).1 u,
        others.1 (good, fresh.1 (unseen, new), distinct),
      ),
    )

abbrev pub GoodOutput : StepOutput → Type 0
GoodOutput output =
    (output.name ≢ [])
    × ((output.type ≡ codes "variable") ⊎ (output.type ≡ codes "file"))
    × (output.type ≡ codes "file" → output.path ≢ [])

pub validate_outputs_iff :
    (outputs : List StepOutput) → (validate_outputs outputs ≡ ok tt) ↔ All GoodOutput outputs
unfolding validate_outputs is_valid_output_type
validate_outputs_iff [] = ground arith
validate_outputs_iff (output ∷ outputs) = ground (
  arith,
  is_empty_iff output.name,
  is_empty_iff output.path,
  text_eq_iff output.type (codes "variable"),
  text_eq_iff output.type (codes "file"),
  validate_outputs_iff outputs,
)

abbrev pub GoodStep : ShellStep → Type 0
GoodStep step =
    All GoodOutput step.outputs
    × ((step.outputs ≡ []) ⊎ (step.name ≢ []))
    × All GoodSecret step.secrets
    × Distinct (secret_names step.secrets)

-- The names of the steps that have one.
abbrev pub named : List ShellStep → List Text
named [] = []
named (step ∷ steps) = if is_empty step.name then named steps else step.name ∷ named steps

pub is_nil_iff : {A : Type 0} (xs : List A) → (is_nil xs ≡ true) ↔ (xs ≡ [])
is_nil_iff [] = ground arith
is_nil_iff (x ∷ xs) = ground arith

pub Fresh-none : (names : List Text) → Fresh [] names
Fresh-none [] = tt
Fresh-none (n ∷ names) = (λ m. m, Fresh-none names)

pub validate_steps_iff :
    (seen : List Text) (steps : List ShellStep)
    → (validate_steps seen steps ≡ ok tt)
      ↔ (All GoodStep steps × Fresh seen (named steps) × Distinct (named steps))
unfolding validate_steps
validate_steps_iff seen [] = ground arith
validate_steps_iff seen (step ∷ steps) = ground (
  arith,
  is_empty_iff step.name,
  member_iff step.name seen,
  validate_outputs_iff step.outputs,
  is_nil_iff step.outputs,
  validate_secrets_iff [] step.secrets,
  Fresh-none (secret_names step.secrets),
  validate_steps_iff (if is_empty step.name then seen else step.name ∷ seen) steps,
  Fresh-cons step.name seen (named steps),
)
