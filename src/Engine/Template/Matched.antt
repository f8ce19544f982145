-- ===== src/Engine/Template/Matched.antt =====
-- A matcher accepts a text exactly if the text begins as the pattern describes it.
use mathlib.Core.Path.{subst}
use mathlib.Core.List.{append_assoc}
use yafe.Prelude.{
  ℕ, ◌≡◌, refl, sym, ap, ◌∙◌, ◌↔◌, inl, inr, true, false, some, [], ◌∷◌, ◌++◌, arith, Option-cases,
}
use yafe.Text.{Text}
use yafe.Text.Scan.{strip, taken, strip-append, strip-some}
use yafe.Names.{is_name_char}
use yafe.Engine.Template.{
  TemplateRef, is_blank, match_name, match_close, match_open, match_output, output_raw, open_braces,
  close_braces, steps_word, outputs_word,
}
use yafe.Engine.Template.Exact.{
  Blanks, IsName, BeginsWithOutput, Blanks-taken, match_name-some, match_close_parts,
  match_open_parts, match_name-append, match_close-append, match_open-append,
}

output_raw-append :
    (before step output behind rest : Text)
    → output_raw before step output behind ++ rest
      ≡ open_braces
        ++ (before
            ++ (steps_word
                ++ (step ++ (outputs_word ++ (output ++ (behind ++ (close_braces ++ rest)))))))
output_raw-append before step output behind rest = simp append_assoc

blank_outside_names : (c : ℕ) → is_blank c ≡ true → is_name_char c ≡ false
unfolding is_blank is_name_char
blank_outside_names c h = ground arith

-- A name ends before blanks and closing braces.
pub match_name-close :
    (name behind rest : Text)
    → IsName name
    → Blanks behind
    → match_name (name ++ (behind ++ (close_braces ++ rest)))
      ≡ some (name, behind ++ (close_braces ++ rest))
unfolding is_name_char
match_name-close name [] rest h b = match_name-append name b'}' (b'}' ∷ rest) h refl
match_name-close name (c ∷ behind) rest h b =
    match_name-append name c (behind ++ (close_braces ++ rest)) h (blank_outside_names c b.0)

-- The parts of a reference to an output, put together.
matched_output :
    (s s1 s2 s3 s4 before step output behind rest : Text)
    → ((inner : Text) × (taken is_blank inner ≡ before)
        × (s ≡ open_braces ++ (before ++ (steps_word ++ s1))))
    → IsName step × (s1 ≡ step ++ s2)
    → s2 ≡ outputs_word ++ s3
    → IsName output × (s3 ≡ output ++ s4)
    → (taken is_blank s4 ≡ behind) × (s4 ≡ behind ++ (close_braces ++ rest))
    → BeginsWithOutput s
        (record {
          raw = output_raw before step output behind;
          step_name = step;
          output_name = output;
        })
        rest
matched_output s s1 s2 s3 s4 before step output behind rest o n e n' c = (
  before,
  behind,
  Blanks-taken o.0 before o.1,
  Blanks-taken s4 behind c.0,
  n.0,
  n'.0,
  refl,
  rw (o.2, n.1, e, n'.1, c.1) (sym (output_raw-append before step output behind rest)),
)

match_output-some :
    (s : Text) (ref : TemplateRef) (rest : Text)
    → match_output s ≡ some (ref, rest)
    → BeginsWithOutput s ref rest
unfolding match_output
match_output-some s ref rest h = elim (Option-cases (match_open steps_word s)) [
  | inl e ↦ absurd (ground arith)
  | inr ((before, s1), e1) ↦ elim (Option-cases (match_name s1)) [
    | inl e ↦ absurd (ground arith)
    | inr ((step, s2), e2) ↦ elim (Option-cases (strip outputs_word s2)) [
      | inl e ↦ absurd (ground arith)
      | inr (s3, e3) ↦ elim (Option-cases (match_name s3)) [
        | inl e ↦ absurd (ground arith)
        | inr ((output, s4), e4) ↦ elim (Option-cases (match_close s4)) [
          | inl e ↦ absurd (ground arith)
          | inr ((behind, r), e5) ↦
              subst (λ (p : TemplateRef × Text). BeginsWithOutput s p.0 p.1) (ground arith)
                (matched_output s s1 s2 s3 s4 before step output behind r
                  (match_open_parts steps_word s before s1 e1) (match_name-some s1 step s2 e2)
                  (strip-some outputs_word s2 s3 e3) (match_name-some s3 output s4 e4)
                  (match_close_parts s4 behind r e5))
        ]
      ]
    ]
  ]
]

match_output_of :
    (s s1 s2 s3 s4 before step output behind rest : Text)
    → match_open steps_word s ≡ some (before, s1)
    → match_name s1 ≡ some (step, s2)
    → strip outputs_word s2 ≡ some s3
    → match_name s3 ≡ some (output, s4)
    → match_close s4 ≡ some (behind, rest)
    → match_output s
      ≡ some (
        record {
          raw = output_raw before step output behind;
          step_name = step;
          output_name = output;
        },
        rest,
      )
unfolding match_output
match_output_of s s1 s2 s3 s4 before step output behind rest e1 e2 e3 e4 e5 =
    rw (match_output, e1, e2, e3, e4, e5) refl

-- What stands behind the parts of a reference to an output.
abbrev pub after_output : Text → Text → Text
after_output behind rest = behind ++ (close_braces ++ rest)

match_output-raw :
    (before step output behind rest : Text)
    → Blanks before
    → Blanks behind
    → IsName step
    → IsName output
    → match_output (output_raw before step output behind ++ rest)
      ≡ some (
        record {
          raw = output_raw before step output behind;
          step_name = step;
          output_name = output;
        },
        rest,
      )
unfolding is_blank is_name_char
match_output-raw before step output behind rest b b' n n' =
    ap match_output (output_raw-append before step output behind rest)
    ∙ (match_output_of
        (open_braces
          ++ (before
              ++ (steps_word ++ (step ++ (outputs_word ++ (output ++ after_output behind rest))))))
        (step ++ (outputs_word ++ (output ++ after_output behind rest)))
        (outputs_word ++ (output ++ after_output behind rest)) (output ++ after_output behind rest)
        (after_output behind rest) before step output behind rest
        (match_open-append b's' (b't' ∷ b'e' ∷ b'p' ∷ b's' ∷ b'.' ∷ []) before
          (step ++ (outputs_word ++ (output ++ after_output behind rest))) b refl)
        (match_name-append step b'.'
          (b'o'
            ∷ b'u'
            ∷ b't'
            ∷ b'p'
            ∷ b'u'
            ∷ b't'
            ∷ b's'
            ∷ b'.'
            ∷ (output ++ after_output behind rest))
          n refl)
        (strip-append outputs_word (output ++ after_output behind rest))
        (match_name-close output behind rest n' b') (match_close-append behind rest b'))

pub match_output_iff :
    (s : Text) (ref : TemplateRef) (rest : Text)
    → (match_output s ≡ some (ref, rest)) ↔ BeginsWithOutput s ref rest
match_output_iff s ref rest = (
  match_output-some s ref rest,
  λ (before, behind, b, b', n, n', e, split).
      rw split (rw e (match_output-raw before ref.step_name ref.output_name behind rest b b' n n')),
)
