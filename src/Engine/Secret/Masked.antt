-- ===== src/Engine/Secret/Masked.antt =====
-- `Mask` leaves no secret in the text that has a value, and one without a star.
use yafe.Prelude.{
  ℕ, zero, suc, ◌-◌, ◌≡◌, ◌≢◌, refl, ap, ◌∙◌, inl, inr, false, none, [], ◌∷◌, ◌++◌, arith, length,
  length-append, All, In, Bool-cases, Option-cases, if◌then◌else◌,
}
use yafe.Text.{Text, is_empty}
use yafe.Text.Laws.{is_empty_iff}
use yafe.Text.Scan.{strip, replace_from, replace_all, strip-append}
use yafe.Engine.Secret.{SecretManager, mask, secret_mask}

-- The text occurs in the other one.
abbrev pub Occurs : Text → Text → Type 0
Occurs v s = (front : Text) × (rest : Text) × (s ≡ front ++ (v ++ rest))

abbrev pub Starless : Text → Type 0
Starless = All (λ c. c ≢ b'*')

abbrev drop : ℕ → Text → Text
drop zero s = s
drop (suc k) [] = []
drop (suc k) (c ∷ s) = drop k s

-- What begins the text with replacements, and has no star, begins the text itself.
prefix-replace_from :
    (k : ℕ) (u s v b : Text)
    → Starless v
    → replace_from k u secret_mask s ≡ v ++ b
    → (b' : Text) × (drop k s ≡ v ++ b')
unfolding replace_from
prefix-replace_from k u s [] b h e = (drop k s, refl)
prefix-replace_from k u [] (d ∷ v) b h e = absurd (ground arith)
prefix-replace_from (suc k) u (c ∷ s) (d ∷ v) b h e = prefix-replace_from k u s (d ∷ v) b h e
prefix-replace_from zero u (c ∷ s) (d ∷ v) b h e = elim (Option-cases (strip u (c ∷ s))) [
  | inl n ↦ let (b', e') = prefix-replace_from 0 u s v b h.1 (ground arith) in (b', ground arith)
  | inr (rest, n) ↦ absurd (h.0 (ground arith))
]

-- What occurs behind the mask, and begins with no star, occurs behind all of the mask.
behind_mask :
    (out a w : Text) (d : ℕ)
    → d ≢ b'*'
    → secret_mask ++ out ≡ a ++ (d ∷ w)
    → (a' : Text) × (out ≡ a' ++ (d ∷ w))
behind_mask out [] w d h e = absurd (h (ground arith))
behind_mask out (x ∷ []) w d h e = absurd (h (ground arith))
behind_mask out (x ∷ y ∷ []) w d h e = absurd (h (ground arith))
behind_mask out (x ∷ y ∷ z ∷ a) w d h e = (a, ground arith)

-- What occurs in the text with replacements, and has no star, occurs in the text itself, where no
-- replacement begins.
Occurs-replace_from :
    (k : ℕ) (u s a v b : Text)
    → v ≢ []
    → Starless v
    → replace_from k u secret_mask s ≡ a ++ (v ++ b)
    → (front : Text) × (t : Text) × (b' : Text) × (s ≡ front ++ t)
      × (t ≡ v ++ b')
      × (strip u t ≡ none)
unfolding replace_from
Occurs-replace_from k u s a [] b full h e = absurd (full refl)
Occurs-replace_from k u [] a (d ∷ v) b full h e =
    absurd (omega (arith, ap length e, length-append a (d ∷ (v ++ b))))
Occurs-replace_from (suc k) u (c ∷ s) a (d ∷ v) b full h e =
    let (front, t, b', split, begins, n) = Occurs-replace_from k u s a (d ∷ v) b full h e in
    (c ∷ front, t, b', ap (λ x. c ∷ x) split, begins, n)
Occurs-replace_from zero u (c ∷ s) [] (d ∷ v) b full h e = elim (Option-cases (strip u (c ∷ s))) [
  | inl n ↦
      let (b', e') = prefix-replace_from 0 u (c ∷ s) (d ∷ v) b h e in ([], c ∷ s, b', refl, e', n)
  | inr (rest, n) ↦ absurd (h.0 (ground arith))
]
Occurs-replace_from zero u (c ∷ s) (x ∷ a) (d ∷ v) b full h e =
    elim (Option-cases (strip u (c ∷ s))) [
      | inl n ↦
          let (front, t, b', split, begins, n') =
            Occurs-replace_from 0 u s a (d ∷ v) b full h (ground arith) in
          (c ∷ front, t, b', ap (λ x. c ∷ x) split, begins, n')
      | inr (rest, n) ↦
          let (a', e') =
            behind_mask (replace_from (length u - 1) u secret_mask s) (x ∷ a) (v ++ b) d h.0
              (ground arith) in
          let (front, t, b', split, begins, n') =
            Occurs-replace_from (length u - 1) u s a' (d ∷ v) b full h e' in
          (c ∷ front, t, b', ap (λ x. c ∷ x) split, begins, n')
    ]

-- A text without stars that does not occur is not made by a replacement, and one that is replaced is
-- gone.
absent_still :
    (u s v : Text)
    → v ≢ []
    → Starless v
    → (Occurs v s → ⊥)
    → Occurs v (replace_all s u secret_mask)
    → ⊥
unfolding replace_all
absent_still u s v full h no_v (a, b, e) =
    let (front, t, b', split, begins, n) = Occurs-replace_from 0 u s a v b full h e in
    no_v (front, b', split ∙ ap (λ x. front ++ x) begins)

replaced_gone : (s v : Text) → v ≢ [] → Starless v → Occurs v (replace_all s v secret_mask) → ⊥
unfolding replace_all
replaced_gone s v full h (a, b, e) =
    let (front, t, b', split, begins, n) = Occurs-replace_from 0 v s a v b full h e in
    absurd (ground (arith, strip-append v b', ap (strip v) begins))

mask-absent :
    (secrets : SecretManager) (input v : Text)
    → v ≢ []
    → Starless v
    → (Occurs v input → ⊥)
    → Occurs v (mask secrets input)
    → ⊥
unfolding mask
mask-absent [] input v full h no_v = no_v
mask-absent (entry ∷ secrets) input v full h no_v = elim (Bool-cases (is_empty entry.1)) [
  | inl e ↦ rw e (mask-absent secrets input v full h no_v)
  | inr e ↦ rw e (
      mask-absent secrets (replace_all input entry.1 secret_mask) v full h
        (absent_still entry.1 input v full h no_v))
]

-- In a text that `Mask` returns, no value of a secret occurs that is not empty and has no star in it,
-- in whatever order the loop over the map visits the secrets.
pub mask_hides :
    (secrets : SecretManager) (input name value : Text)
    → In (name, value) secrets
    → value ≢ []
    → All (λ c. c ≢ b'*') value
    → ¬ Occurs value (mask secrets input)
unfolding mask
mask_hides [] input name value m full h = absurd m
mask_hides (entry ∷ secrets) input name value (inl e) full h =
    let same : value ≡ entry.1 = ap (λ (p : Text × Text). p.1) e in
    let some_text : is_empty entry.1 ≡ false = ground (arith, is_empty_iff entry.1) in
    rw some_text (
      rw (← same) (
        mask-absent secrets (replace_all input value secret_mask) value full h
          (replaced_gone input value full h)))
mask_hides (entry ∷ secrets) input name value (inr m) full h =
    mask_hides secrets (if is_empty entry.1 then input else replace_all input entry.1 secret_mask)
      name value m full h
