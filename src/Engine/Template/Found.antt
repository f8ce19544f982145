-- ===== src/Engine/Template/Found.antt =====
-- `FindAllStringSubmatch` finds every occurrence of a reference and nothing else: references begin
-- with the only dollar sign in them, so that no two of them overlap.
use yafe.Prelude.{◌≡◌, ◌≢◌, ◌↔◌, some, [], ◌∷◌, ◌++◌, arith, All, All-append, All-map, In}
use yafe.Text.{Text}
use yafe.Names.{is_name_char}
use yafe.Engine.Template.{
  is_blank, is_name_start, TemplateRef, SecretRef, match_output, match_secret, close_braces,
  steps_word, outputs_word, secrets_word, parse_templates, parse_secret_templates,
}
use yafe.Engine.Template.Exact.{BeginsWithOutput, BeginsWithSecret, IsName, Blanks}
use yafe.Engine.Template.Matched.{match_output_iff}
use yafe.Engine.Template.MatchedSecret.{match_secret_iff}
use yafe.Engine.Template.Scanning.{OneDollar, find_all_sound, find_all_complete}

-- Names and blanks have no dollar sign.
no_dollar_name : (s : Text) → IsName s → All (λ c. c ≢ b'$') s
unfolding is_name_start is_name_char
no_dollar_name [] n = absurd n
no_dollar_name (c ∷ s) (start, rest) = (ground arith, All-map (λ d h. ground arith) s rest)

no_dollar-Blanks : (s : Text) → Blanks s → All (λ c. c ≢ b'$') s
unfolding is_blank
no_dollar-Blanks s h = All-map (λ d h. ground arith) s h

output-OneDollar :
    (t : Text) (ref : TemplateRef) (rest : Text)
    → match_output t ≡ some (ref, rest)
    → OneDollar ref.raw
output-OneDollar t ref rest h =
    let (before, behind, b, b', n, n', e, split) = (match_output_iff t ref rest).0 h in
    let free : (xs ys : Text)
        → All (λ c. c ≢ b'$') xs
        → All (λ c. c ≢ b'$') ys
        → All (λ c. c ≢ b'$') (xs ++ ys) =
      All-append (λ c. c ≢ b'$') in
    let last = free behind close_braces (no_dollar-Blanks behind b') (ground arith) in
    let output = free ref.output_name _ (no_dollar_name ref.output_name n') last in
    let step =
      free ref.step_name _ (no_dollar_name ref.step_name n)
        (free outputs_word _ (ground arith) output) in
    (
      _,
      e,
      (
        ground arith,
        (
          ground arith,
          free before _ (no_dollar-Blanks before b) (free steps_word _ (ground arith) step),
        ),
      ),
    )

secret-OneDollar :
    (t : Text) (ref : SecretRef) (rest : Text)
    → match_secret t ≡ some (ref, rest)
    → OneDollar ref.raw
secret-OneDollar t ref rest h =
    let (before, behind, b, b', n, e, split) = (match_secret_iff t ref rest).0 h in
    let free : (xs ys : Text)
        → All (λ c. c ≢ b'$') xs
        → All (λ c. c ≢ b'$') ys
        → All (λ c. c ≢ b'$') (xs ++ ys) =
      All-append (λ c. c ≢ b'$') in
    let last = free behind close_braces (no_dollar-Blanks behind b') (ground arith) in
    let name =
      free secrets_word _ (ground arith) (free ref.name _ (no_dollar_name ref.name n) last) in
    (_, e, (ground arith, (ground arith, free before _ (no_dollar-Blanks before b) name)))

output_splits :
    (t : Text) (ref : TemplateRef) (rest : Text)
    → match_output t ≡ some (ref, rest)
    → t ≡ ref.raw ++ rest
output_splits t ref rest h = ((match_output_iff t ref rest).0 h).7

secret_splits :
    (t : Text) (ref : SecretRef) (rest : Text)
    → match_secret t ≡ some (ref, rest)
    → t ≡ ref.raw ++ rest
secret_splits t ref rest h = ((match_secret_iff t ref rest).0 h).6

-- An output is referenced by a command exactly if somewhere in the command stands a text that the
-- output pattern describes for it, and `ParseTemplates` lists no other reference; the same holds of
-- secrets and `ParseSecretTemplates`.
pub parse_templates_exact :
    (s : Text)
    → ((ref : TemplateRef)
        → In ref (parse_templates s) ↔ (
            (front : Text) × (t : Text) × (rest : Text) × (s ≡ front ++ t)
            × BeginsWithOutput t ref rest))
      × ((ref : SecretRef)
          → In ref (parse_secret_templates s) ↔ (
              (front : Text) × (t : Text) × (rest : Text) × (s ≡ front ++ t)
              × BeginsWithSecret t ref rest))
unfolding parse_templates parse_secret_templates
parse_templates_exact s = (
  λ ref. (
    λ m.
        let (front, t, rest, e, h) =
          find_all_sound match_output (λ r. r.raw) output_splits output-OneDollar 0 s ref m in
        (front, t, rest, e, (match_output_iff t ref rest).0 h),
    λ (front, t, rest, e, b).
        find_all_complete match_output (λ r. r.raw) output_splits output-OneDollar 0 s front t ref
          rest e ((match_output_iff t ref rest).1 b) (omega arith),
  ),
  λ ref. (
    λ m.
        let (front, t, rest, e, h) =
          find_all_sound match_secret (λ r. r.raw) secret_splits secret-OneDollar 0 s ref m in
        (front, t, rest, e, (match_secret_iff t ref rest).0 h),
    λ (front, t, rest, e, b).
        find_all_complete match_secret (λ r. r.raw) secret_splits secret-OneDollar 0 s front t ref
          rest e ((match_secret_iff t ref rest).1 b) (omega arith),
  ),
)
