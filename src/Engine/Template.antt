-- ===== src/Engine/Template.antt =====
-- internal/engine/template.go: the references `${{ steps.<name>.outputs.<output> }}` and
-- `${{ secrets.<name> }}` in the command of a step. The two patterns match in at most one way at each
-- place, so `FindAllStringSubmatch` is a scan from the left.
pub mod Exact
pub mod Found
pub mod Matched
pub mod MatchedSecret
pub mod Scanning
use yafe.Prelude.{
  ℕ, zero, suc, ◌-◌, Bool, true, false, ◌&&◌, ◌||◌, Option, none, some, List, [], ◌∷◌, ◌++◌, length,
  leb, ◌==◌, if◌then◌else◌,
}
use yafe.Text.{Text}
use yafe.Text.Scan.{strip, taken, left}
use yafe.Names.{is_name_char}

-- `\s` of the `regexp` package
unfoldable pub is_blank : ℕ → Bool
is_blank c = (leb 9 c && leb c 10) || (leb 12 c && leb c 13) || (c == 32)

-- `[a-zA-Z_]`
unfoldable pub is_name_start : ℕ → Bool
is_name_start c = (leb b'a' c && leb c b'z') || (leb b'A' c && leb c b'Z') || (c == b'_')

-- `[a-zA-Z_][a-zA-Z0-9_-]*`, as long as it gets, and what stands behind it.
unfoldable pub match_name : Text → Option (Text × Text)
unfolding is_name_start taken left is_name_char
match_name [] = none
match_name (c ∷ s) =
    if is_name_start c then some (c ∷ taken is_name_char s, left is_name_char s) else none

abbrev pub open_braces : Text
open_braces = b'$' ∷ b'{' ∷ b'{' ∷ []

abbrev pub close_braces : Text
close_braces = b'}' ∷ b'}' ∷ []

-- `steps.`, `.outputs.` and `secrets.`
abbrev pub steps_word : Text
steps_word = b's' ∷ b't' ∷ b'e' ∷ b'p' ∷ b's' ∷ b'.' ∷ []

abbrev pub outputs_word : Text
outputs_word = b'.' ∷ b'o' ∷ b'u' ∷ b't' ∷ b'p' ∷ b'u' ∷ b't' ∷ b's' ∷ b'.' ∷ []

abbrev pub secrets_word : Text
secrets_word = b's' ∷ b'e' ∷ b'c' ∷ b'r' ∷ b'e' ∷ b't' ∷ b's' ∷ b'.' ∷ []

-- `\s*\}\}`: the blanks, and what stands behind the braces.
unfoldable pub match_close : Text → Option (Text × Text)
unfolding taken left is_blank strip
match_close s = elim (strip close_braces (left is_blank s)) [
  | none ↦ none
  | some rest ↦ some (taken is_blank s, rest)
]

-- `\$\{\{\s*` and the word behind it: the blanks, and what stands behind the word.
unfoldable pub match_open : Text → Text → Option (Text × Text)
unfolding taken left is_blank strip
match_open word s = elim (strip open_braces s) [
  | none ↦ none
  | some inner ↦ elim (strip word (left is_blank inner)) [
    | none ↦ none
    | some rest ↦ some (taken is_blank inner, rest)
  ]
]

pub record TemplateRef : Type 0 where
  pub raw : Text
  pub step_name : Text
  pub output_name : Text

pub record SecretRef : Type 0 where
  pub raw : Text
  pub name : Text

-- The texts that the patterns match, with the blanks behind `${{` and before `}}`.
abbrev pub output_raw : Text → Text → Text → Text → Text
output_raw before step output behind =
    open_braces
    ++ (before ++ (steps_word ++ (step ++ (outputs_word ++ (output ++ (behind ++ close_braces))))))

abbrev pub secret_raw : Text → Text → Text → Text
secret_raw before name behind =
    open_braces ++ (before ++ (secrets_word ++ (name ++ (behind ++ close_braces))))

-- A match of `outputPattern` at the beginning of a text, and what stands behind it.
unfoldable pub match_output : Text → Option (TemplateRef × Text)
unfolding match_open match_name match_close strip
match_output s = elim (match_open steps_word s) [
  | none ↦ none
  | some (before, s1) ↦ elim (match_name s1) [
    | none ↦ none
    | some (step, s2) ↦ elim (strip outputs_word s2) [
      | none ↦ none
      | some s3 ↦ elim (match_name s3) [
        | none ↦ none
        | some (output, s4) ↦ elim (match_close s4) [
          | none ↦ none
          | some (behind, rest) ↦ some (
            record {
              raw = output_raw before step output behind;
              step_name = step;
              output_name = output;
            },
            rest,
          )
        ]
      ]
    ]
  ]
]

-- A match of `secretPattern` at the beginning of a text, and what stands behind it.
unfoldable pub match_secret : Text → Option (SecretRef × Text)
unfolding match_open match_name match_close
match_secret s = elim (match_open secrets_word s) [
  | none ↦ none
  | some (before, s1) ↦ elim (match_name s1) [
    | none ↦ none
    | some (name, s2) ↦ elim (match_close s2) [
      | none ↦ none
      | some (behind, rest) ↦
          some (record { raw = secret_raw before name behind; name = name }, rest)
    ]
  ]
]

module _ {R : Type 0} (matcher : Text → Option (R × Text)) (raw : R → Text) where
  -- `FindAllStringSubmatch(s, -1)`, behind as many characters of a match as the number says.
  unfoldable pub find_all : ℕ → Text → List R
  find_all k [] = []
  find_all (suc k) (c ∷ s) = find_all k s
  find_all zero (c ∷ s) = elim (matcher (c ∷ s)) [
    | none ↦ find_all 0 s
    | some (ref, rest) ↦ ref ∷ find_all (length (raw ref) - 1) s
  ]

unfoldable pub parse_templates : Text → List TemplateRef
unfolding find_all match_output
parse_templates = find_all match_output (λ ref. ref.raw) 0

unfoldable pub parse_secret_templates : Text → List SecretRef
unfolding find_all match_secret
parse_secret_templates = find_all match_secret (λ ref. ref.raw) 0
