-- ===== src/Engine/State/Variables.antt =====
-- The output file of a step: what a step writes as `key=value` is what `parseOutputFile` reads.
use yafe.Prelude.{ℕ, ◌≡◌, ◌≢◌, refl, ap, ◌∙◌, false, none, some, List, [], ◌∷◌, ◌++◌, arith, All}
use yafe.Text.{
  Text, is_empty, is_space, trim_space, trim_left, trim_right, has_prefix, before_first,
  after_first,
}
use yafe.Text.Laws.{text_eq_refl}
use yafe.Engine.State.{parse_output_line, find_variable}

-- A character that may stand in a key.
abbrev pub KeyChar : ℕ → Type 0
KeyChar c = (is_space c ≡ false) × (c ≢ b'=')

-- A key does not begin as a comment does.
abbrev pub IsKey : Text → Type 0
IsKey [] = ⊥
IsKey (c ∷ s) = (c ≢ b'#') × All KeyChar (c ∷ s)

trim_right-append :
    (s t : Text) (d : ℕ) → trim_right (d ∷ t) ≡ d ∷ t → trim_right (s ++ (d ∷ t)) ≡ s ++ (d ∷ t)
unfolding trim_right
trim_right-append [] t d h = h
trim_right-append (c ∷ []) t d h = rw h refl
trim_right-append (c ∷ e ∷ s) t d h = rw (trim_right-append (e ∷ s) t d h) refl

trim_right_equals :
    (value : Text) → trim_right value ≡ value → trim_right (b'=' ∷ value) ≡ b'=' ∷ value
unfolding trim_right is_space
trim_right_equals [] h = refl
trim_right_equals (c ∷ value) h = rw h refl

trim_right_key : (s : Text) → All KeyChar s → trim_right s ≡ s
unfolding trim_right
trim_right_key [] h = refl
trim_right_key (c ∷ []) h = ground arith
trim_right_key (c ∷ d ∷ s) h = rw (trim_right_key (d ∷ s) h.1) refl

before_first-append : (s t : Text) → All KeyChar s → before_first b'=' (s ++ (b'=' ∷ t)) ≡ s
unfolding before_first
before_first-append [] t h = refl
before_first-append (c ∷ s) t h = ground (arith, before_first-append s t h.1)

after_first-append : (s t : Text) → All KeyChar s → after_first b'=' (s ++ (b'=' ∷ t)) ≡ some t
unfolding after_first
after_first-append [] t h = refl
after_first-append (c ∷ s) t h = ground (arith, after_first-append s t h.1)

trim_space-line :
    (key value : Text)
    → IsKey key
    → trim_right value ≡ value
    → trim_space (key ++ (b'=' ∷ value)) ≡ key ++ (b'=' ∷ value)
unfolding trim_space trim_left
trim_space-line [] value k r = absurd k
trim_space-line (c ∷ key) value (hash, ((space, equals), k)) r =
    rw space (trim_right-append (c ∷ key) value b'=' (trim_right_equals value r))

trim_space_key : (key : Text) → IsKey key → trim_space key ≡ key
unfolding trim_space trim_left
trim_space_key [] k = absurd k
trim_space_key (c ∷ key) (hash, ((space, equals), k)) =
    rw space (trim_right_key (c ∷ key) ((space, equals), k))

trim_space_value :
    (value : Text) → trim_left value ≡ value → trim_right value ≡ value → trim_space value ≡ value
unfolding trim_space
trim_space_value value l r = ap trim_right l ∙ r

-- A line that is neither blank nor a comment, and has an equals sign.
line_with_value :
    (raw line before value : Text)
    → trim_space raw ≡ line
    → is_empty line ≡ false
    → has_prefix line (b'#' ∷ []) ≡ false
    → after_first b'=' line ≡ some value
    → before_first b'=' line ≡ before
    → parse_output_line raw ≡ some (trim_space before, trim_space value)
unfolding parse_output_line
line_with_value raw line before value e1 e2 e3 e4 e5 =
    rw (parse_output_line, e1, e2, e3, e4, e1, e5) refl

no_comment : (key rest : Text) → IsKey key → has_prefix (key ++ rest) (b'#' ∷ []) ≡ false
unfolding has_prefix
no_comment [] rest k = absurd k
no_comment (c ∷ key) rest k = ground arith

full_line : (key rest : Text) → IsKey key → is_empty (key ++ rest) ≡ false
unfolding is_empty
full_line [] rest k = absurd k
full_line (c ∷ key) rest k = refl

KeyChars : (key : Text) → IsKey key → All KeyChar key
KeyChars [] k = absurd k
KeyChars (c ∷ key) k = k.1

line_parsed :
    (key value : Text)
    → IsKey key
    → trim_left value ≡ value
    → trim_right value ≡ value
    → parse_output_line (key ++ (b'=' ∷ value)) ≡ some (key, value)
line_parsed key value k l r =
    let line = key ++ (b'=' ∷ value) in
    line_with_value line line key value (trim_space-line key value k r)
      (full_line key (b'=' ∷ value) k) (no_comment key (b'=' ∷ value) k)
      (after_first-append key value (KeyChars key k))
      (before_first-append key value (KeyChars key k))
    ∙ rw (trim_space_key key k, trim_space_value value l r) refl

-- A step that writes a line `key=value`, where the key has no space and no equals sign in it and does
-- not begin like a comment and the value neither begins nor ends with a space, and writes no later
-- line for the key, has the value for the key when its output file is read.
pub written_variable :
    (front back : List Text) (key value : Text)
    → IsKey key
    → trim_left value ≡ value
    → trim_right value ≡ value
    → find_variable key back ≡ none
    → find_variable key (front ++ ((key ++ (b'=' ∷ value)) ∷ back)) ≡ some value
unfolding find_variable
written_variable [] back key value k l r last =
    rw (last, line_parsed key value k l r, text_eq_refl key) refl
written_variable (line ∷ front) back key value k l r last =
    rw (written_variable front back key value k l r last) refl
