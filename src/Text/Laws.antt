-- ===== src/Text/Laws.antt =====
-- Laws of the functions on text.
use yafe.Prelude.{
  ℕ, ◌≡◌, ◌≢◌, ◌∙◌, sym, refl, ap, ◌↔◌, true, false, some, [], ◌∷◌, ◌++◌, arith, Bool-cases,
  Option-cases, inl, inr, length, length-append,
}
use yafe.Text.{Text, is_empty, text_eq, cut_suffix, has_suffix, trim_suffix}

pub text_eq_iff : (s t : Text) → (text_eq s t ≡ true) ↔ (s ≡ t)
unfolding text_eq
text_eq_iff [] [] = ground arith
text_eq_iff [] (b ∷ t) = ground arith
text_eq_iff (a ∷ s) [] = ground arith
text_eq_iff (a ∷ s) (b ∷ t) = ground (arith, text_eq_iff s t)

pub text_eq_refl : (s : Text) → text_eq s s ≡ true
text_eq_refl s = (text_eq_iff s s).1 refl

longer-text_eq : (c : ℕ) (s t : Text) → text_eq (c ∷ (s ++ t)) t ≡ false
longer-text_eq c s t = elim (Bool-cases (text_eq (c ∷ (s ++ t)) t)) [
  | inl h ↦
      absurd (omega (arith, ap length ((text_eq_iff (c ∷ (s ++ t)) t).0 h), length-append s t))
  | inr h ↦ h
]

pub cut_suffix-append : (s suffix : Text) → cut_suffix (s ++ suffix) suffix ≡ some s
unfolding cut_suffix
cut_suffix-append [] [] = refl
cut_suffix-append [] (c ∷ suffix) = rw (text_eq_refl (c ∷ suffix)) refl
cut_suffix-append (c ∷ s) suffix = rw (longer-text_eq c s suffix, cut_suffix-append s suffix) refl

pub has_suffix-append : (s suffix : Text) → has_suffix (s ++ suffix) suffix ≡ true
unfolding has_suffix
has_suffix-append s suffix = rw (cut_suffix-append s suffix, has_suffix) refl

pub trim_suffix-append : (s suffix : Text) → trim_suffix (s ++ suffix) suffix ≡ s
unfolding trim_suffix
trim_suffix-append s suffix = rw (cut_suffix-append s suffix, trim_suffix) refl

-- The last character, `d` where there is none.
abbrev last_or : ℕ → Text → ℕ
last_or d [] = d
last_or d (c ∷ s) = last_or c s

last_or-append : (d c : ℕ) (s t : Text) → last_or d (s ++ c ∷ t) ≡ last_or c t
last_or-append d c [] t = refl
last_or-append d c (b ∷ s) t = last_or-append b c s t

-- Texts that end in different suffixes are different.
pub suffixes_differ :
    (s t : Text) (a b : ℕ) (x y : Text) → last_or a x ≢ last_or b y → s ++ a ∷ x ≢ t ++ b ∷ y
suffixes_differ s t a b x y h e =
    h (sym (last_or-append 0 a s x) ∙ ap (last_or 0) e ∙ last_or-append 0 b t y)

pub append_cancel : (suffix s t : Text) → s ++ suffix ≡ t ++ suffix → s ≡ t
append_cancel suffix s t e =
    sym (trim_suffix-append s suffix)
    ∙ ap (λ r. trim_suffix r suffix) e
    ∙ trim_suffix-append t suffix

pub is_empty_iff : (s : Text) → (is_empty s ≡ true) ↔ (s ≡ [])
unfolding is_empty
is_empty_iff [] = ground arith
is_empty_iff (c ∷ s) = ground arith

cut_suffix_iff : (s suffix r : Text) → cut_suffix s suffix ≡ some r → s ≡ r ++ suffix
unfolding cut_suffix
cut_suffix_iff [] suffix r h = ground (arith, text_eq_iff [] suffix)
cut_suffix_iff (c ∷ s) suffix [] h = ground (arith, text_eq_iff (c ∷ s) suffix)
cut_suffix_iff (c ∷ s) suffix (d ∷ r) h = ground (arith, cut_suffix_iff s suffix r)

-- A text that has a suffix is something in front of it.
pub has_suffix_split :
    (s suffix : Text) → has_suffix s suffix ≡ true → (r : Text) × (s ≡ r ++ suffix)
unfolding has_suffix
has_suffix_split s suffix h = elim (Option-cases (cut_suffix s suffix)) [
  | inl e ↦ absurd (ground arith)
  | inr (r, e) ↦ (r, cut_suffix_iff s suffix r e)
]

pub append_cancel_left : (p s t : Text) → p ++ s ≡ p ++ t → s ≡ t
append_cancel_left [] s t e = e
append_cancel_left (c ∷ p) s t e = append_cancel_left p s t (ground arith)

cut_suffix-some : (s suffix r : Text) → cut_suffix s suffix ≡ some r → s ≡ r ++ suffix
unfolding cut_suffix
cut_suffix-some [] suffix r h = ground (arith, text_eq_iff [] suffix)
cut_suffix-some (c ∷ s) suffix r h = elim (Bool-cases (text_eq (c ∷ s) suffix)) [
  | inl y ↦ ground (arith, y, text_eq_iff (c ∷ s) suffix)
  | inr n ↦ elim (Option-cases (cut_suffix s suffix)) [
    | inl e ↦ absurd (ground (arith, n, e))
    | inr (r', e) ↦ ground (arith, n, e, cut_suffix-some s suffix r' e)
  ]
]

-- What is left of a text that had the suffix, with the suffix again.
pub trim_suffix_kept :
    (s suffix : Text) → has_suffix s suffix ≡ true → s ≡ trim_suffix s suffix ++ suffix
unfolding has_suffix trim_suffix
trim_suffix_kept s suffix h = elim (Option-cases (cut_suffix s suffix)) [
  | inl e ↦ absurd (ground (arith, e))
  | inr (r, e) ↦ ground (arith, e, cut_suffix-some s suffix r e)
]
