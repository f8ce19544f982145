-- ===== src/Engine/State/Collect.antt =====
-- What `CollectOutputs` leaves: a value for every declared output, and those that were there.
use mathlib.Core.Path.{subst}
use yafe.Prelude.{
  In-each, ◌≡◌, sym, inl, inr, ◌&&◌, some, List, [], ◌∷◌, map, arith, In, Bool-cases, Option-cases,
}
use yafe.Text.{Text, codes, text_eq}
use yafe.Text.Laws.{text_eq_refl}
use yafe.Text.Paths.{join}
use yafe.Result.{ok, Result-cases, of_engine, invalid_output_type, os_is_not_exist}
use yafe.Exec.{choose, raise}
use yafe.Engine.{StepOutput, ShellStep}
use yafe.Engine.Host.{Host, call}
use yafe.Engine.State.{
  StateManager, get_output, set_output, find_output, find_variable, is_inside, collect_variable,
  collect_file, collect_each, collect_outputs, collect_declared, read_output_file,
}
use yafe.Engine.Validate.Linked.{output_names}

-- The state has a value for an output of a step.
abbrev pub HasOutput : StateManager → Text → Text → Type 0
HasOutput state step output = (value : Text) × (get_output state step output ≡ some value)

abbrev pub Keeps : StateManager → StateManager → Type 0
Keeps state state' =
    (step output : Text) → HasOutput state step output → HasOutput state' step output

HasOutput-set :
    (step output value : Text) (state : StateManager)
    → HasOutput (set_output step output value state) step output
unfolding get_output set_output find_output
HasOutput-set step output value state =
    (value, ground (arith, text_eq_refl step, text_eq_refl output))

Keeps-set :
    (step output value : Text) (state : StateManager)
    → Keeps state (set_output step output value state)
unfolding get_output set_output find_output
Keeps-set step output value state s o (v, e) =
    elim (Bool-cases (text_eq step s && text_eq output o)) [
      | inl h ↦ (value, ground arith)
      | inr h ↦ (v, ground arith)
    ]

module _ {W : Type 0} (h : Host W) where
  variable_collected :
      (step : Text) (output : StepOutput) (lines : List Text) (state state' : StateManager) (w : W)
      → (collect_variable h step output lines state w).0 ≡ ok state'
      → (value : Text) × (state' ≡ set_output step output.name value state)
  unfolding collect_variable
  variable_collected step output lines state state' w e =
      elim (Option-cases (find_variable output.name lines)) [
        | inl n ↦ absurd (ground arith)
        | inr (value, n) ↦ (value, ground arith)
      ]

  file_collected :
      (step : Text) (output : StepOutput) (state state' : StateManager) (w : W)
      → (collect_file h step output state w).0 ≡ ok state'
      → (value : Text) × (state' ≡ set_output step output.name value state)
  unfolding collect_file
  file_collected step output state state' w e =
      let path = join state.base_dir output.path in
      elim (Bool-cases (is_inside state.base_dir path)) [
        | inl inside ↦ elim (Result-cases (call (h.stat path) w).0) [
          | inl (a, found) ↦ (path, ground arith)
          | inr (c, found) ↦ elim (Bool-cases (os_is_not_exist c)) [
            | inl b ↦ absurd (ground arith)
            | inr b ↦ absurd (ground arith)
          ]
        ]
        | inr outside ↦ absurd (ground arith)
      ]

  -- The step of the loop, with the value that it sets.
  one_collected :
      (step : Text) (lines : List Text) (output : StepOutput) (state state' : StateManager) (w : W)
      → (choose
          (text_eq output.type (codes "variable"))
          (collect_variable h step output lines state)
          (choose
            (text_eq output.type (codes "file"))
            (collect_file h step output state)
            (raise (of_engine invalid_output_type)))
          w).0
        ≡ ok state'
      → (value : Text) × (state' ≡ set_output step output.name value state)
  one_collected step lines output state state' w e =
      elim (Bool-cases (text_eq output.type (codes "variable"))) [
        | inl v ↦ variable_collected step output lines state state' w (ground arith)
        | inr v ↦ elim (Bool-cases (text_eq output.type (codes "file"))) [
          | inl f ↦ file_collected step output state state' w (ground arith)
          | inr f ↦ absurd (ground arith)
        ]
      ]

  each_collected :
      (step : Text) (lines : List Text) (outputs : List StepOutput) (state state' : StateManager)
      (w : W)
      → (collect_each h step lines outputs state w).0 ≡ ok state'
      → Keeps state state'
        × ((o : Text) → In o (map (λ (o : StepOutput). o.name) outputs) → HasOutput state' step o)
  unfolding collect_each
  each_collected step lines [] state state' w e =
      let same : state ≡ state' = ground arith in
      subst (λ x. Keeps state x × ((o : Text) → ⊥ → HasOutput x step o)) same
        (λ s o k. k, λ o m. absurd m)
  each_collected step lines (output ∷ outputs) state state' w e =
      let first =
        choose (text_eq output.type (codes "variable")) (collect_variable h step output lines state)
          (choose (text_eq output.type (codes "file")) (collect_file h step output state)
            (raise (of_engine invalid_output_type))) in
      elim (Result-cases (first w).0) [
        | inl (middle, e1) ↦
            let (value, set) = one_collected step lines output state middle w e1 in
            let (keeps, has) =
              each_collected step lines outputs middle state' (first w).1 (ground arith) in
            let kept =
              subst (λ x. Keeps state x) (sym set) (Keeps-set step output.name value state) in
            let here =
              subst (λ x. HasOutput x step output.name) (sym set)
                (HasOutput-set step output.name value state) in
            (
              λ s o k. keeps s o (kept s o k),
              In-each (λ o. HasOutput state' step o) output.name
                  (map (λ (o : StepOutput). o.name) outputs) (keeps step output.name here) has,
            )
        | inr (c, e1) ↦ absurd (ground arith)
      ]

  declared_collected :
      (step : Text) (outputs : List StepOutput) (state state' : StateManager) (w : W)
      → (collect_declared h state step outputs w).0 ≡ ok state'
      → Keeps state state'
        × ((o : Text) → In o (map (λ (o : StepOutput). o.name) outputs) → HasOutput state' step o)
  unfolding collect_declared
  declared_collected step [] state state' w e =
      let unchanged : state ≡ state' = ground arith in
      subst (λ x. Keeps state x × ((o : Text) → ⊥ → HasOutput x step o)) unchanged
        (λ s o k. k, λ o m. absurd m)
  declared_collected step (output ∷ outputs) state state' w e =
      let opened = read_output_file h state step in
      elim (Result-cases (opened w).0) [
        | inl (lines, e1) ↦
            each_collected step lines (output ∷ outputs) state state' (opened w).1 (ground arith)
        | inr (c, e1) ↦ absurd (ground arith)
      ]

  -- After the outputs of a step are collected, it has all of them, and the other steps have theirs.
  pub outputs_kept :
      (step : ShellStep) (state state' : StateManager) (w : W)
      → (collect_outputs h state step w).0 ≡ ok state'
      → Keeps state state' × ((o : Text) → In o (output_names step) → HasOutput state' step.name o)
  unfolding collect_outputs
  outputs_kept step state state' w e = declared_collected step.name step.outputs state state' w e
