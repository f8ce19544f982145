-- ===== src/Engine/Template/Scanning.antt =====
-- The scan of `FindAllStringSubmatch` with a matcher whose matches have one dollar sign, at the
-- beginning: it finds every match and nothing else.
use mathlib.Core.Path.{subst}
use yafe.Prelude.{
  ℕ, zero, suc, ◌-◌, ◌≤◌, ◌≡◌, ◌≢◌, refl, sym, ap, ◌∙◌, inl, inr, Option, none, some, [], ◌∷◌, ◌++◌,
  arith, length, length-append, All, In, Option-cases,
}
use yafe.Text.{Text}
use yafe.Engine.Template.{find_all}

-- A text in which a dollar sign stands at the beginning and nowhere else.
abbrev pub OneDollar : Text → Type 0
OneDollar raw = (tail : Text) × (raw ≡ b'$' ∷ tail) × All (λ c. c ≢ b'$') tail

-- A dollar sign behind some text stands behind all of what has none.
dollar_behind :
    (tail rest front u : Text)
    → All (λ c. c ≢ b'$') tail
    → tail ++ rest ≡ front ++ b'$' ∷ u
    → length tail ≤ length front
dollar_behind [] rest front u h e = omega arith
dollar_behind (c ∷ tail) rest [] u h e = absurd (ground (arith, h.0))
dollar_behind (c ∷ tail) rest (d ∷ front) u h e =
    omega (arith, dollar_behind tail rest front u h.1 (ground arith))

module _ {R : Type 0} (matcher : Text → Option (R × Text)) (raw : R → Text)
    (splits : (t : Text) (ref : R) (rest : Text)
      → matcher t ≡ some (ref, rest)
      → t ≡ raw ref ++ rest)
    (one : (t : Text) (ref : R) (rest : Text)
      → matcher t ≡ some (ref, rest)
      → OneDollar (raw ref)) where
  find_all-none :
      (c : ℕ) (s : Text)
      → matcher (c ∷ s) ≡ none
      → find_all matcher raw 0 (c ∷ s) ≡ find_all matcher raw 0 s
  unfolding find_all
  find_all-none c s e = rw (find_all, e) refl

  find_all-some :
      (c : ℕ) (s : Text) (ref : R) (rest : Text)
      → matcher (c ∷ s) ≡ some (ref, rest)
      → find_all matcher raw 0 (c ∷ s) ≡ ref ∷ find_all matcher raw (length (raw ref) - 1) s
  unfolding find_all
  find_all-some c s ref rest e = rw (find_all, e) refl

  pub find_all_sound :
      (k : ℕ) (s : Text) (ref : R)
      → In ref (find_all matcher raw k s)
      → (front : Text) × (t : Text) × (rest : Text) × (s ≡ front ++ t)
        × (matcher t ≡ some (ref, rest))
  unfolding find_all
  find_all_sound k [] ref m = absurd m
  find_all_sound (suc k) (c ∷ s) ref m =
      let (front, t, rest, e, h) = find_all_sound k s ref m in
      (c ∷ front, t, rest, ap (λ x. c ∷ x) e, h)
  find_all_sound zero (c ∷ s) ref m = elim (Option-cases (matcher (c ∷ s))) [
    | inl e ↦
        let (front, t, rest, e', h) =
          find_all_sound 0 s ref (subst (λ l. In ref l) (find_all-none c s e) m) in
        (c ∷ front, t, rest, ap (λ x. c ∷ x) e', h)
    | inr ((r, rest), e) ↦ elim (subst (λ l. In ref l) (find_all-some c s r rest e) m) [
      | inl same ↦ ([], c ∷ s, rest, refl, rw same e)
      | inr later ↦
          let (front, t, rest', e', h) = find_all_sound (length (raw r) - 1) s ref later in
          (c ∷ front, t, rest', ap (λ x. c ∷ x) e', h)
    ]
  ]

  -- A text that is matched begins with the dollar sign of the match.
  dollar_first :
      (t : Text) (ref : R) (rest : Text)
      → matcher t ≡ some (ref, rest)
      → (tail : Text) × (raw ref ≡ b'$' ∷ tail)
        × (t ≡ b'$' ∷ (tail ++ rest))
        × All (λ c. c ≢ b'$') tail
  dollar_first t ref rest h =
      let (tail, e, others) = one t ref rest h in
      (tail, e, splits t ref rest h ∙ ap (λ x. x ++ rest) e, others)

  -- A match behind another begins behind all of it.
  behind_match :
      (c : ℕ) (s front t : Text) (r ref : R) (rest rest' : Text)
      → s ≡ front ++ t
      → matcher (c ∷ s) ≡ some (r, rest)
      → matcher t ≡ some (ref, rest')
      → length (raw r) - 1 ≤ length front
  behind_match c s front t r ref rest rest' split h h' =
      let (tail, e, begins, others) = dollar_first (c ∷ s) r rest h in
      let (tail', e', begins', others') = dollar_first t ref rest' h' in
      let long = dollar_behind tail rest front (tail' ++ rest') others (ground arith) in
      omega (arith, long, ap length e)

  pub find_all_complete :
      (k : ℕ) (s front t : Text) (ref : R) (rest : Text)
      → s ≡ front ++ t
      → matcher t ≡ some (ref, rest)
      → k ≤ length front
      → In ref (find_all matcher raw k s)
  unfolding find_all
  find_all_complete k [] front t ref rest split h le = absurd (
      omega
        (arith, ap length split, length-append front t, ap length (dollar_first t ref rest h).2))
  find_all_complete (suc k) (c ∷ s) [] t ref rest split h le = absurd (omega arith)
  find_all_complete (suc k) (c ∷ s) (d ∷ front) t ref rest split h le =
      find_all_complete k s front t ref rest (ground arith) h (omega arith)
  find_all_complete zero (c ∷ s) [] t ref rest split h le =
      subst (λ l. In ref l) (sym (find_all-some c s ref rest (ap matcher split ∙ h))) (inl refl)
  find_all_complete zero (c ∷ s) (d ∷ front) t ref rest split h le =
      let tail_split : s ≡ front ++ t = ground arith in
      elim (Option-cases (matcher (c ∷ s))) [
        | inl e ↦
            subst (λ l. In ref l) (sym (find_all-none c s e))
              (find_all_complete 0 s front t ref rest tail_split h (omega arith))
        | inr ((r, rest'), e) ↦
            subst (λ l. In ref l) (sym (find_all-some c s r rest' e))
              (inr (
                find_all_complete (length (raw r) - 1) s front t ref rest tail_split h
                  (behind_match c s front t r ref rest' rest tail_split e h)))
      ]
