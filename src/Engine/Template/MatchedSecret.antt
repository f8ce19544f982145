-- ===== src/Engine/Template/MatchedSecret.antt =====
-- The matcher of references to secrets accepts a text exactly if the text begins as the pattern
-- describes it.
use mathlib.Core.Path.{subst}
use mathlib.Core.List.{append_assoc}
use yafe.Prelude.{◌≡◌, refl, sym, ap, ◌∙◌, ◌↔◌, inl, inr, some, [], ◌∷◌, ◌++◌, arith, Option-cases}
use yafe.Text.{Text}
use yafe.Text.Scan.{taken}
use yafe.Engine.Template.{
  SecretRef, is_blank, match_name, match_close, match_open, match_secret, secret_raw, open_braces,
  close_braces, secrets_word,
}
use yafe.Engine.Template.Exact.{
  Blanks, IsName, BeginsWithSecret, Blanks-taken, match_name-some, match_close_parts,
  match_open_parts, match_close-append, match_open-append,
}
use yafe.Engine.Template.Matched.{after_output, match_name-close}

secret_raw-append :
    (before name behind rest : Text)
    → secret_raw before name behind ++ rest
      ≡ open_braces ++ (before ++ (secrets_word ++ (name ++ (behind ++ (close_braces ++ rest)))))
secret_raw-append before name behind rest = simp append_assoc

-- The same for a reference to a secret.
matched_secret :
    (s s1 s2 before name behind rest : Text)
    → ((inner : Text) × (taken is_blank inner ≡ before)
        × (s ≡ open_braces ++ (before ++ (secrets_word ++ s1))))
    → IsName name × (s1 ≡ name ++ s2)
    → (taken is_blank s2 ≡ behind) × (s2 ≡ behind ++ (close_braces ++ rest))
    → BeginsWithSecret s (record { raw = secret_raw before name behind; name = name }) rest
matched_secret s s1 s2 before name behind rest o n c = (
  before,
  behind,
  Blanks-taken o.0 before o.1,
  Blanks-taken s2 behind c.0,
  n.0,
  refl,
  rw (o.2, n.1, c.1) (sym (secret_raw-append before name behind rest)),
)

match_secret-some :
    (s : Text) (ref : SecretRef) (rest : Text)
    → match_secret s ≡ some (ref, rest)
    → BeginsWithSecret s ref rest
unfolding match_secret
match_secret-some s ref rest h = elim (Option-cases (match_open secrets_word s)) [
  | inl e ↦ absurd (ground arith)
  | inr ((before, s1), e1) ↦ elim (Option-cases (match_name s1)) [
    | inl e ↦ absurd (ground arith)
    | inr ((name, s2), e2) ↦ elim (Option-cases (match_close s2)) [
      | inl e ↦ absurd (ground arith)
      | inr ((behind, r), e3) ↦
          subst (λ (p : SecretRef × Text). BeginsWithSecret s p.0 p.1) (ground arith)
            (matched_secret s s1 s2 before name behind r
              (match_open_parts secrets_word s before s1 e1) (match_name-some s1 name s2 e2)
              (match_close_parts s2 behind r e3))
    ]
  ]
]

match_secret_of :
    (s s1 s2 before name behind rest : Text)
    → match_open secrets_word s ≡ some (before, s1)
    → match_name s1 ≡ some (name, s2)
    → match_close s2 ≡ some (behind, rest)
    → match_secret s ≡ some (record { raw = secret_raw before name behind; name = name }, rest)
unfolding match_secret
match_secret_of s s1 s2 before name behind rest e1 e2 e3 = rw (match_secret, e1, e2, e3) refl

match_secret-raw :
    (before name behind rest : Text)
    → Blanks before
    → Blanks behind
    → IsName name
    → match_secret (secret_raw before name behind ++ rest)
      ≡ some (record { raw = secret_raw before name behind; name = name }, rest)
unfolding is_blank
match_secret-raw before name behind rest b b' n =
    ap match_secret (secret_raw-append before name behind rest)
    ∙ (match_secret_of
        (open_braces ++ (before ++ (secrets_word ++ (name ++ after_output behind rest))))
        (name ++ after_output behind rest) (after_output behind rest) before name behind rest
        (match_open-append b's' (b'e' ∷ b'c' ∷ b'r' ∷ b'e' ∷ b't' ∷ b's' ∷ b'.' ∷ []) before
          (name ++ after_output behind rest) b refl)
        (match_name-close name behind rest n b') (match_close-append behind rest b'))

pub match_secret_iff :
    (s : Text) (ref : SecretRef) (rest : Text)
    → (match_secret s ≡ some (ref, rest)) ↔ BeginsWithSecret s ref rest
match_secret_iff s ref rest = (
  match_secret-some s ref rest,
  λ (before, behind, b, b', n, e, split).
      rw split (rw e (match_secret-raw before ref.name behind rest b b' n)),
)
