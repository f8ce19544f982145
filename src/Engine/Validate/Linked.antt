-- ===== src/Engine/Validate/Linked.antt =====
-- What the checks of references to outputs accept.
use yafe.Prelude.{
  ℕ, suc, ◌+◌, ◌<◌, ◌≡◌, ◌≢◌, refl, sym, ap, inl, inr, not, ◌&&◌, none, some, List, [], ◌∷◌, ◌++◌,
  map, arith, All, In, length, Bool-cases, Option-cases,
}
use yafe.Text.{Text, text_eq, is_empty}
use yafe.Text.Laws.{text_eq_iff, text_eq_refl, is_empty_iff}
use yafe.Engine.{StepOutput, ShellStep}
use yafe.Engine.Template.{TemplateRef, parse_templates}
use yafe.Engine.Validate.{find_step}
use yafe.Engine.Validate.Declared.{Distinct, named}

abbrev pub output_names : ShellStep → List Text
output_names step = map (λ (o : StepOutput). o.name) step.outputs

-- Among the earlier steps is one of the name that the reference gives, and it declares the output.
abbrev pub IsDeclared : List ShellStep → TemplateRef → Type 0
IsDeclared earlier ref =
    (step : ShellStep) × In step earlier
    × (step.name ≢ [])
    × (step.name ≡ ref.step_name)
    × In ref.output_name (output_names step)

-- Every reference in the command of a step is to an output that an earlier step declares.
abbrev pub Linked : List ShellStep → List ShellStep → Type 0
Linked earlier [] = Unit
Linked earlier (step ∷ steps) =
    All (IsDeclared earlier) (parse_templates step.cmd) × Linked (earlier ++ (step ∷ [])) steps

abbrev pub Located : Text → ℕ → List ShellStep → ℕ → List Text → Type 0
Located name k steps i outputs =
    (front : List ShellStep) × (step : ShellStep) × (back : List ShellStep) × (steps
      ≡ front ++ (step ∷ back))
    × (i ≡ k + length front)
    × (step.name ≢ [])
    × (step.name ≡ name)
    × (outputs ≡ output_names step)

pub find_step-Located :
    (name : Text) (k : ℕ) (steps : List ShellStep) (i : ℕ) (outputs : List Text)
    → find_step name k steps ≡ some (i, outputs)
    → Located name k steps i outputs
unfolding find_step
find_step-Located name k [] i outputs h = absurd (ground arith)
find_step-Located name k (step ∷ steps) i outputs h =
    elim (Option-cases (find_step name (suc k) steps)) [
      | inl e ↦ elim (Bool-cases (not (is_empty step.name) && text_eq step.name name)) [
        | inl t ↦ (
          [],
          step,
          steps,
          refl,
          ground arith,
          ground (arith, is_empty_iff step.name),
          ground (arith, text_eq_iff step.name name),
          ground arith,
        )
        | inr t ↦ absurd (ground arith)
      ]
      | inr ((j, o), e) ↦
          let (front, s, back, split, at, full, same, names) =
            find_step-Located name (suc k) steps j o e in
          (step ∷ front, s, back, ap (λ x. step ∷ x) split, ground arith, full, same, ground arith)
    ]

find_step-none :
    (name : Text) (k : ℕ) (steps : List ShellStep)
    → (In name (named steps) → ⊥)
    → find_step name k steps ≡ none
unfolding find_step
find_step-none name k [] h = refl
find_step-none name k (step ∷ steps) h = elim (Bool-cases (is_empty step.name)) [
  | inl e ↦ ground (arith, find_step-none name (suc k) steps)
  | inr e ↦ ground (arith, text_eq_iff step.name name, find_step-none name (suc k) steps)
]

pub find_step-append :
    (k : ℕ) (front : List ShellStep) (step : ShellStep) (back : List ShellStep)
    → step.name ≢ []
    → (In step.name (named back) → ⊥)
    → find_step step.name k (front ++ (step ∷ back)) ≡ some (k + length front, output_names step)
unfolding find_step
find_step-append k [] step back full h =
    ground (
      arith,
      text_eq_refl step.name,
      is_empty_iff step.name,
      find_step-none step.name (suc k) back h,
    )
find_step-append k (s ∷ front) step back full h =
    ground (arith, find_step-append (suc k) front step back full h)

-- No step after one of a name has the name too.
pub named_after :
    (front : List ShellStep) (step : ShellStep) (back : List ShellStep)
    → step.name ≢ []
    → Distinct (named (front ++ (step ∷ back)))
    → In step.name (named back)
    → ⊥
named_after [] step back full d m = ground (arith, is_empty_iff step.name)
named_after (s ∷ front) step back full d m = elim (Bool-cases (is_empty s.name)) [
  | inl e ↦ named_after front step back full (ground arith) m
  | inr e ↦ named_after front step back full (ground arith) m
]

pub In-front :
    (front : List ShellStep) (step : ShellStep) (back earlier rest : List ShellStep)
    → front ++ (step ∷ back) ≡ earlier ++ rest
    → length front < length earlier
    → In step earlier
In-front front step back [] rest e lt = absurd (omega arith)
In-front [] step back (s ∷ earlier) rest e lt = inl (ground arith)
In-front (f ∷ front) step back (s ∷ earlier) rest e lt =
    inr (In-front front step back earlier rest (ground arith) (omega arith))

pub In-split :
    (step : ShellStep) (xs : List ShellStep)
    → In step xs
    → (front : List ShellStep) × (back : List ShellStep) × (xs ≡ front ++ (step ∷ back))
In-split step [] m = absurd m
In-split step (x ∷ xs) (inl e) = ([], xs, ap (λ y. y ∷ xs) (sym e))
In-split step (x ∷ xs) (inr m) =
    let (front, back, e) = In-split step xs m in (x ∷ front, back, ap (λ y. x ∷ y) e)
