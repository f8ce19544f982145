-- ===== src/Names/Safe.antt =====
-- What a valid name is: it is safe as a file name.
use yafe.Prelude.{ℕ, ◌≤◌, ◌≡◌, ◌≢◌, ◌↔◌, ◌⊎◌, true, [], ◌∷◌, arith, All}
use yafe.Text.{Text, trim_space}
use yafe.Text.Laws.{is_empty_iff}
use yafe.Result.{ok}
use yafe.Names.{is_name_char, all_name_chars, matches_name, validate_flow_name}

-- A letter, a digit, an underscore or a hyphen.
abbrev pub SafeChar : ℕ → Type 0
SafeChar c =
    ((b'a' ≤ c) × (c ≤ b'z'))
    ⊎ ((b'A' ≤ c) × (c ≤ b'Z'))
    ⊎ ((b'0' ≤ c) × (c ≤ b'9'))
    ⊎ (c ≡ b'_')
    ⊎ (c ≡ b'-')

is_name_char_iff : (c : ℕ) → (is_name_char c ≡ true) ↔ SafeChar c
unfolding is_name_char
is_name_char_iff c = ground arith

all_name_chars_iff : (s : Text) → (all_name_chars s ≡ true) ↔ All SafeChar s
unfolding all_name_chars
all_name_chars_iff [] = ground arith
all_name_chars_iff (c ∷ s) = ground (arith, is_name_char_iff c, all_name_chars_iff s)

matches_name_iff : (s : Text) → (matches_name s ≡ true) ↔ ((s ≢ []) × All SafeChar s)
unfolding matches_name
matches_name_iff [] = ground arith
matches_name_iff (c ∷ s) = ground (arith, all_name_chars_iff (c ∷ s))

-- A flow name is valid exactly if, trimmed, it is not empty and each of its characters is a
-- letter, a digit, an underscore or a hyphen; so it names no other directory.
pub valid_flow_name_iff :
    (name : Text)
    → (validate_flow_name name ≡ ok tt) ↔ ((trim_space name ≢ []) × All SafeChar (trim_space name))
unfolding validate_flow_name
valid_flow_name_iff name =
    ground (arith, is_empty_iff (trim_space name), matches_name_iff (trim_space name))
