-- ===== src/Engine/Parse/Parsed.antt =====
-- What the loading of a flow guarantees.
use mathlib.Core.Path.{subst}
use yafe.Prelude.{◌≡◌, ◌≢◌, sym, inl, inr, some, List, [], ◌∷◌, arith, map, Bool-cases}
use yafe.Text.{codes, text_eq, is_empty}
use yafe.Text.Laws.{is_empty_iff, text_eq_iff}
use yafe.Result.{Result, ok, Result-cases}
use yafe.Engine.{ShellStep, ensure_defaults, host, Flow}
use yafe.Engine.Validate.{validate_flow, is_nil}
use yafe.Engine.Validate.Declared.{is_nil_iff}
use yafe.Engine.Validate.WellFormed.{WellFormed, validate_flow_iff}
use yafe.Engine.Parse.{
  RawStep, RawFlow, convert_raw_step, convert_steps, convert_raw_flow, convert_tool, parse_flow,
  load_bytes,
}

-- A step has a shell, and what it has besides is that of the decoded step.
abbrev pub IsStepOf : RawStep → ShellStep → Type 0
IsStepOf raw step =
    (step.shell ≢ [])
    × (raw.kind ≡ codes "shell")
    × (step.name ≡ raw.name)
    × (step.cmd ≡ raw.cmd)
    × (step.env ≡ raw.env)
    × (step.outputs ≡ raw.outputs)
    × (step.secrets ≡ raw.secrets)

-- The steps are those of the decoded steps, in their order.
abbrev pub AreStepsOf : List RawStep → List ShellStep → Type 0
AreStepsOf [] [] = Unit
AreStepsOf (raw ∷ raws) (step ∷ steps) = IsStepOf raw step × AreStepsOf raws steps
AreStepsOf _ _ = ⊥

step_of : (raw : RawStep) (step : ShellStep) → convert_raw_step raw ≡ ok step → IsStepOf raw step
unfolding convert_raw_step ensure_defaults
step_of raw step e = elim (Bool-cases (is_empty raw.kind)) [
  | inl h ↦ absurd (ground arith)
  | inr h ↦ elim (Bool-cases (text_eq raw.kind (codes "shell"))) [
    | inl k ↦ elim (Bool-cases (is_empty raw.shell)) [
      | inl s ↦ ground (arith, text_eq_iff raw.kind (codes "shell"))
      | inr s ↦ ground (arith, text_eq_iff raw.kind (codes "shell"), is_empty_iff raw.shell)
    ]
    | inr k ↦ absurd (ground arith)
  ]
]

steps_of :
    (raws : List RawStep) (steps : List ShellStep)
    → convert_steps raws ≡ ok steps
    → AreStepsOf raws steps
unfolding convert_steps
steps_of [] [] e = tt
steps_of [] (s ∷ steps) e = absurd (ground arith)
steps_of (raw ∷ raws) steps e = elim (Result-cases (convert_raw_step raw)) [
  | inr (c, e1) ↦ absurd (ground arith)
  | inl (first, e1) ↦ elim (Result-cases (convert_steps raws)) [
    | inr (c, e2) ↦ absurd (ground arith)
    | inl (rest, e2) ↦
        let same : (first ∷ rest) ≡ steps = ground arith in
        subst (λ x. AreStepsOf (raw ∷ raws) x) same (step_of raw first e1, steps_of raws rest e2)
  ]
]

-- The flow is made of the parts of the decoded flow.
abbrev pub IsFlowOf : RawFlow → Flow → Type 0
IsFlowOf raw flow =
    (raw.runs_on ≡ codes "host")
    × (flow.runs_on ≡ some host)
    × (raw.steps ≢ [])
    × AreStepsOf raw.steps flow.steps
    × (flow.state_dir ≡ raw.state_dir)
    × (flow.secrets ≡ raw.secrets)
    × (flow.tools ≡ map convert_tool raw.tools)

flow_of : (raw : RawFlow) (flow : Flow) → convert_raw_flow raw ≡ ok flow → IsFlowOf raw flow
unfolding convert_raw_flow
flow_of raw flow e = elim (Bool-cases (is_empty raw.runs_on)) [
  | inl h ↦ absurd (ground arith)
  | inr h ↦ elim (Bool-cases (text_eq raw.runs_on (codes "host"))) [
    | inr k ↦ absurd (ground arith)
    | inl k ↦ elim (Bool-cases (is_nil raw.steps)) [
      | inl n ↦ absurd (ground arith)
      | inr n ↦ elim (Result-cases (convert_steps raw.steps)) [
        | inr (c, e1) ↦ absurd (ground arith)
        | inl (steps, e1) ↦
            let same : flow.steps ≡ steps = ground arith in
            (
              ground (arith, text_eq_iff raw.runs_on (codes "host")),
              ground arith,
              ground (arith, is_nil_iff raw.steps),
              subst (λ x. AreStepsOf raw.steps x) (sym same) (steps_of raw.steps steps e1),
              ground arith,
              ground arith,
              ground arith,
            )
      ]
    ]
  ]
]

-- If `LoadBytes` gives a flow, then the contents were decoded, and the flow is that of the decoded
-- contents: it runs on the host, as they say, it has their steps, of which there is at least one, in
-- their order, each of the kind `shell` and with a shell, and their directory, secrets and tools; and
-- it is well-formed.
pub load_bytes_lem :
    {B : Type 0} (unmarshal : B → Result RawFlow) (content : B) (flow : Flow)
    → load_bytes unmarshal content ≡ ok flow
    → ((raw : RawFlow) × (unmarshal content ≡ ok raw) × IsFlowOf raw flow) × WellFormed flow
unfolding load_bytes parse_flow
load_bytes_lem unmarshal content flow e = elim (Result-cases (unmarshal content)) [
  | inr (c, e1) ↦ absurd (ground arith)
  | inl (raw, e1) ↦ elim (Result-cases (convert_raw_flow raw)) [
    | inr (c, e2) ↦ absurd (ground arith)
    | inl (f, e2) ↦ elim (Result-cases (validate_flow f)) [
      | inr (c, e3) ↦ absurd (ground arith)
      | inl (u, e3) ↦
          let same : f ≡ flow = ground arith in
          subst
            (λ x. ((raw : RawFlow) × (unmarshal content ≡ ok raw) × IsFlowOf raw x) × WellFormed x)
            same ((raw, e1, flow_of raw f e2), (validate_flow_iff f).0 e3)
    ]
  ]
]
