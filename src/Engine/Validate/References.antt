-- ===== src/Engine/Validate/References.antt =====
-- The checks of references to outputs accept exactly the linked steps.
use mathlib.Core.Path.{subst}
use mathlib.Core.List.{append_assoc}
use yafe.Prelude.{
  ℕ, suc, ◌+◌, ◌<◌, ◌≡◌, sym, ap, ◌∙◌, ◌↔◌, inl, inr, false, some, List, [], ◌∷◌, ◌++◌, arith, All,
  In, length, length-append, Bool-cases, Option-cases, if◌then◌else◌,
}
use yafe.Text.{Text}
use yafe.Text.Members.{member_iff}
use yafe.Result.{ok}
use yafe.Engine.{ShellStep, Flow}
use yafe.Engine.Template.{TemplateRef, parse_templates}
use yafe.Engine.Validate.{
  find_step, check_references, check_steps, has_templates, validate_template_references,
}
use yafe.Engine.Validate.Declared.{Distinct, named, is_nil_iff}
use yafe.Engine.Validate.Linked.{
  IsDeclared, Linked, output_names, find_step-Located, find_step-append, named_after, In-front,
  In-split,
}

module _ (earlier rest : List ShellStep) (distinct : Distinct (named (earlier ++ rest))) where
  -- The step that the search finds is the earlier one that declares the output.
  finds_declared :
      (ref : TemplateRef)
      → IsDeclared earlier ref
      → (i : ℕ) × (outputs : List Text) × (find_step ref.step_name 0 (earlier ++ rest)
          ≡ some (i, outputs))
        × (i < length earlier)
        × In ref.output_name outputs
  finds_declared ref (step, m, full, same, output) =
      let (front, back, split) = In-split step earlier m in
      let all : earlier ++ rest ≡ front ++ (step ∷ (back ++ rest)) =
        ap (λ x. x ++ rest) split ∙ append_assoc front (step ∷ back) rest in
      let found = find_step-append 0 front step (back ++ rest) full (
        named_after front step (back ++ rest) full
          (subst (λ x. Distinct (named x)) all distinct)) in
      (
        0 + length front,
        output_names step,
        ap (λ n. find_step n 0 (earlier ++ rest)) (sym same)
            ∙ ap (λ x. find_step step.name 0 x) all
            ∙ found,
        omega (arith, ap length split, length-append front (step ∷ back)),
        output,
      )

  found_IsDeclared :
      (ref : TemplateRef) (i : ℕ) (outputs : List Text)
      → find_step ref.step_name 0 (earlier ++ rest) ≡ some (i, outputs)
      → i < length earlier
      → In ref.output_name outputs
      → IsDeclared earlier ref
  found_IsDeclared ref i outputs h lt m =
      let (front, step, back, split, at, full, same, names) =
        find_step-Located ref.step_name 0 (earlier ++ rest) i outputs h in
      (
        step,
        In-front front step back earlier rest (sym split) (omega arith),
        full,
        same,
        subst (λ x. In ref.output_name x) names m,
      )

  check_references_iff :
      (refs : List TemplateRef)
      → (check_references (earlier ++ rest) (length earlier) refs ≡ ok tt)
        ↔ All (IsDeclared earlier) refs
  unfolding check_references
  check_references_iff [] = ground arith
  check_references_iff (ref ∷ refs) = (
    λ h. elim (Option-cases (find_step ref.step_name 0 (earlier ++ rest))) [
      | inl e ↦ absurd (ground arith)
      | inr ((i, outputs), e) ↦
          let (lt, m, others) : (i < length earlier)
              × In ref.output_name outputs
              × (check_references (earlier ++ rest) (length earlier) refs ≡ ok tt) =
            ground (arith, member_iff ref.output_name outputs) in
          (found_IsDeclared ref i outputs e lt m, (check_references_iff refs).0 others)
    ],
    λ (d, ds).
        let (i, outputs, e, lt, m) = finds_declared ref d in
        ground (arith, member_iff ref.output_name outputs, (check_references_iff refs).1 ds),
  )

check_steps_iff :
    (earlier rest : List ShellStep)
    → Distinct (named (earlier ++ rest))
    → (check_steps (earlier ++ rest) (length earlier) rest ≡ ok tt) ↔ Linked earlier rest
unfolding check_steps
check_steps_iff earlier [] d = ground arith
check_steps_iff earlier (step ∷ rest) d =
    let all : (earlier ++ (step ∷ [])) ++ rest ≡ earlier ++ (step ∷ rest) =
      append_assoc earlier (step ∷ []) rest in
    let longer : length (earlier ++ (step ∷ [])) ≡ suc (length earlier) =
      omega (arith, length-append earlier (step ∷ [])) in
    let d' = subst (λ x. Distinct (named x)) (sym all) d in
    let others : (check_steps (earlier ++ (step ∷ rest)) (suc (length earlier)) rest ≡ ok tt)
        ↔ Linked (earlier ++ (step ∷ [])) rest =
      subst
        (λ x.
          (check_steps x (suc (length earlier)) rest ≡ ok tt)
          ↔ Linked (earlier ++ (step ∷ [])) rest)
        all
        (subst
          (λ n.
            (check_steps ((earlier ++ (step ∷ [])) ++ rest) n rest ≡ ok tt)
            ↔ Linked (earlier ++ (step ∷ [])) rest)
          longer (check_steps_iff (earlier ++ (step ∷ [])) rest d')) in
    ground (arith, check_references_iff earlier (step ∷ rest) d (parse_templates step.cmd), others)

-- Steps without references are linked.
has_templates-Linked :
    (earlier steps : List ShellStep) → has_templates steps ≡ false → Linked earlier steps
unfolding has_templates
has_templates-Linked earlier [] h = tt
has_templates-Linked earlier (step ∷ steps) h =
    let none_here : parse_templates step.cmd ≡ [] =
      ground (arith, is_nil_iff (parse_templates step.cmd)) in
    (
      subst (λ refs. All (IsDeclared earlier) refs) (sym none_here) tt,
      has_templates-Linked (earlier ++ (step ∷ [])) steps (ground arith),
    )

-- The check of references is skipped only where there are none.
pub templates_iff :
    (flow : Flow)
    → Distinct (named flow.steps)
    → ((if has_templates flow.steps then validate_template_references flow else ok tt) ≡ ok tt)
      ↔ Linked [] flow.steps
unfolding validate_template_references
templates_iff flow d = elim (Bool-cases (has_templates flow.steps)) [
  | inl h ↦ ground (arith, check_steps_iff [] flow.steps d)
  | inr h ↦ (λ e. has_templates-Linked [] flow.steps h, λ l. ground arith)
]
