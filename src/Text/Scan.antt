-- ===== src/Text/Scan.antt =====
-- Taking text apart from the left: a prefix, the characters of a class, and the replacements of
-- Go's `strings` package.
use yafe.Prelude.{
  ℕ, zero, suc, ◌-◌, ◌≡◌, refl, inl, inr, Bool, true, false, Option, none, some, [], ◌∷◌, ◌++◌,
  arith, length, All, ◌==◌, if◌then◌else◌, Bool-cases, ==_iff,
}
use yafe.Text.{Text}

-- What stands behind the prefix.
unfoldable pub strip : Text → Text → Option Text
strip [] s = some s
strip (p ∷ ps) [] = none
strip (p ∷ ps) (c ∷ s) = if p == c then strip ps s else none

-- The longest beginning of a text whose characters pass the test, and what stands behind it.
unfoldable pub taken : (ℕ → Bool) → Text → Text
taken test [] = []
taken test (c ∷ s) = if test c then c ∷ taken test s else []

unfoldable pub left : (ℕ → Bool) → Text → Text
left test [] = []
left test (c ∷ s) = if test c then left test s else c ∷ s

-- `strings.Replace(s, old, new, 1)`
unfoldable pub replace_first : Text → Text → Text → Text
unfolding strip
replace_first old new [] = elim (strip old []) [ none ↦ [] | some rest ↦ new ++ rest ]
replace_first old new (c ∷ s) = elim (strip old (c ∷ s)) [
  | none ↦ c ∷ replace_first old new s
  | some rest ↦ new ++ rest
]

-- `strings.ReplaceAll` for an old text that is not empty, behind as many characters of a replaced
-- occurrence as the number says.
unfoldable pub replace_from : ℕ → Text → Text → Text → Text
unfolding strip
replace_from k old new [] = []
replace_from (suc k) old new (c ∷ s) = replace_from k old new s
replace_from zero old new (c ∷ s) = elim (strip old (c ∷ s)) [
  | none ↦ c ∷ replace_from 0 old new s
  | some rest ↦ new ++ replace_from (length old - 1) old new s
]

unfoldable pub replace_all : Text → Text → Text → Text
unfolding replace_from
replace_all s old new = replace_from 0 old new s

pub strip-append : (p s : Text) → strip p (p ++ s) ≡ some s
unfolding strip
strip-append [] s = refl
strip-append (c ∷ p) s = ground (arith, ==_iff c c, strip-append p s)

pub strip-some : (p s rest : Text) → strip p s ≡ some rest → s ≡ p ++ rest
unfolding strip
strip-some [] s rest h = ground arith
strip-some (c ∷ p) [] rest h = ground arith
strip-some (c ∷ p) (d ∷ s) rest h = ground (arith, ==_iff c d, strip-some p s rest)

pub taken-left : (test : ℕ → Bool) (s : Text) → s ≡ taken test s ++ left test s
unfolding taken left
taken-left test [] = refl
taken-left test (c ∷ s) = ground (arith, taken-left test s)

pub taken-All : (test : ℕ → Bool) (s : Text) → All (λ c. test c ≡ true) (taken test s)
unfolding taken
taken-All test [] = tt
taken-All test (c ∷ s) = elim (Bool-cases (test c)) [
  | inl h ↦ rw h (h, taken-All test s)
  | inr h ↦ rw h tt
]

pub taken-append :
    (test : ℕ → Bool) (s : Text) (d : ℕ) (t : Text)
    → All (λ c. test c ≡ true) s
    → test d ≡ false
    → taken test (s ++ d ∷ t) ≡ s
unfolding taken
taken-append test [] d t h e = rw e refl
taken-append test (c ∷ s) d t h e = rw (h.0, taken-append test s d t h.1 e) refl

pub left-append :
    (test : ℕ → Bool) (s : Text) (d : ℕ) (t : Text)
    → All (λ c. test c ≡ true) s
    → test d ≡ false
    → left test (s ++ d ∷ t) ≡ d ∷ t
unfolding left
left-append test [] d t h e = rw e refl
left-append test (c ∷ s) d t h e = rw (h.0, left-append test s d t h.1 e) refl
