-- ===== src/Engine/Template/Exact.antt =====
-- The matchers accept exactly what the two patterns describe.
use mathlib.Core.Path.{subst}
use yafe.Prelude.{
  ℕ, ◌≡◌, refl, inl, inr, true, false, some, [], ◌∷◌, ◌++◌, arith, All, Bool-cases, Option-cases,
}
use yafe.Text.{Text}
use yafe.Text.Scan.{
  strip, taken, left, strip-append, strip-some, taken-left, taken-All, taken-append, left-append,
}
use yafe.Names.{is_name_char}
use yafe.Engine.Template.{
  TemplateRef, SecretRef, is_blank, is_name_start, match_name, match_close, match_open, output_raw,
  secret_raw, open_braces, close_braces,
}

-- Blanks only.
abbrev pub Blanks : Text → Type 0
Blanks = All (λ c. is_blank c ≡ true)

-- A name: a letter or an underscore, and letters, digits, underscores and dashes.
abbrev pub IsName : Text → Type 0
IsName [] = ⊥
IsName (c ∷ s) = (is_name_start c ≡ true) × All (λ d. is_name_char d ≡ true) s

-- A text that begins with a reference to an output, as `outputPattern` describes it.
abbrev pub BeginsWithOutput : Text → TemplateRef → Text → Type 0
BeginsWithOutput s ref rest =
    (before : Text) × (behind : Text) × Blanks before
    × Blanks behind
    × IsName ref.step_name
    × IsName ref.output_name
    × (ref.raw ≡ output_raw before ref.step_name ref.output_name behind)
    × (s ≡ ref.raw ++ rest)

abbrev pub BeginsWithSecret : Text → SecretRef → Text → Type 0
BeginsWithSecret s ref rest =
    (before : Text) × (behind : Text) × Blanks before
    × Blanks behind
    × IsName ref.name
    × (ref.raw ≡ secret_raw before ref.name behind)
    × (s ≡ ref.raw ++ rest)

pub match_name-some :
    (s name rest : Text) → match_name s ≡ some (name, rest) → IsName name × (s ≡ name ++ rest)
unfolding match_name
match_name-some [] name rest h = ground arith
match_name-some (c ∷ s) name rest h = elim (Bool-cases (is_name_start c)) [
  | inl start ↦ ground (arith, taken-left is_name_char s, taken-All is_name_char s)
  | inr start ↦ ground arith
]

-- What was taken is blank.
pub Blanks-taken : (s b : Text) → taken is_blank s ≡ b → Blanks b
Blanks-taken s b e = subst (λ x. Blanks x) e (taken-All is_blank s)

pub match_close_parts :
    (s behind rest : Text)
    → match_close s ≡ some (behind, rest)
    → (taken is_blank s ≡ behind) × (s ≡ behind ++ (close_braces ++ rest))
unfolding match_close
match_close_parts s behind rest h = elim (Option-cases (strip close_braces (left is_blank s))) [
  | inl e ↦ absurd (ground arith)
  | inr (r, e) ↦
      ground (arith, taken-left is_blank s, strip-some close_braces (left is_blank s) r e)
]

pub match_open_parts :
    (word s before rest : Text)
    → match_open word s ≡ some (before, rest)
    → (inner : Text) × (taken is_blank inner ≡ before)
      × (s ≡ open_braces ++ (before ++ (word ++ rest)))
unfolding match_open
match_open_parts word s before rest h = elim (Option-cases (strip open_braces s)) [
  | inl e ↦ absurd (ground arith)
  | inr (inner, e) ↦ elim (Option-cases (strip word (left is_blank inner))) [
    | inl e2 ↦ absurd (ground arith)
    | inr (r, e2) ↦ (
      inner,
      ground arith,
      ground (
        arith,
        taken-left is_blank inner,
        strip-some open_braces s inner e,
        strip-some word (left is_blank inner) r e2,
      ),
    )
  ]
]

pub match_name-append :
    (name : Text) (d : ℕ) (t : Text)
    → IsName name
    → is_name_char d ≡ false
    → match_name (name ++ d ∷ t) ≡ some (name, d ∷ t)
unfolding match_name
match_name-append [] d t h e = absurd h
match_name-append (c ∷ s) d t h e =
    rw (h.0, taken-append is_name_char s d t h.1 e, left-append is_name_char s d t h.1 e) refl

match_close_of :
    (s l behind rest : Text)
    → taken is_blank s ≡ behind
    → left is_blank s ≡ l
    → strip close_braces l ≡ some rest
    → match_close s ≡ some (behind, rest)
unfolding match_close
match_close_of s l behind rest h1 h2 h3 = rw (match_close, h2, h3, h1) refl

pub match_close-append :
    (behind rest : Text)
    → Blanks behind
    → match_close (behind ++ (close_braces ++ rest)) ≡ some (behind, rest)
unfolding is_blank
match_close-append behind rest h =
    match_close_of (behind ++ (close_braces ++ rest)) (close_braces ++ rest) behind rest
      (taken-append is_blank behind b'}' (b'}' ∷ rest) h refl)
      (left-append is_blank behind b'}' (b'}' ∷ rest) h refl) (strip-append close_braces rest)

match_open_of :
    (word s inner l before rest : Text)
    → strip open_braces s ≡ some inner
    → taken is_blank inner ≡ before
    → left is_blank inner ≡ l
    → strip word l ≡ some rest
    → match_open word s ≡ some (before, rest)
unfolding match_open
match_open_of word s inner l before rest h h1 h2 h3 = rw (match_open, h, h2, h3, h1) refl

pub match_open-append :
    (c : ℕ) (word before rest : Text)
    → Blanks before
    → is_blank c ≡ false
    → match_open (c ∷ word) (open_braces ++ (before ++ (c ∷ (word ++ rest)))) ≡ some (before, rest)
match_open-append c word before rest h e =
    match_open_of (c ∷ word) (open_braces ++ (before ++ (c ∷ (word ++ rest))))
      (before ++ (c ∷ (word ++ rest))) (c ∷ (word ++ rest)) before rest
      (strip-append open_braces (before ++ (c ∷ (word ++ rest))))
      (taken-append is_blank before c (word ++ rest) h e)
      (left-append is_blank before c (word ++ rest) h e) (strip-append (c ∷ word) rest)
