-- ===== src/Text.antt =====
-- Text as the list of its code points, with the functions of Go's `strings` package that the
-- program calls. A Go string that is valid UTF-8 is such a list, and comparing two of them byte by
-- byte orders them as their code points do.
pub mod Case
pub mod Laws
pub mod Members
pub mod Order
pub mod Paths
pub mod Scan
use Prim.Native.Char.{code}
use yafe.Prelude.{
  ℕ, ◌+◌, ◌≡◌, Bool, true, false, ◌&&◌, ◌||◌, Option, none, some, List, [], ◌∷◌, ◌++◌, String, ltb,
  leb, ◌==◌, if◌then◌else◌,
}

abbrev pub Text : Type 0
Text = List ℕ

abbrev pub codes : String → Text
codes String.[] = []
codes (String.◌∷◌ c s) = code c ∷ codes s

unfoldable pub text_eq : Text → Text → Bool
text_eq [] [] = true
text_eq [] (b ∷ t) = false
text_eq (a ∷ s) [] = false
text_eq (a ∷ s) (b ∷ t) = (a == b) && text_eq s t

-- `s < t` on strings.
unfoldable pub text_lt : Text → Text → Bool
text_lt [] [] = false
text_lt [] (b ∷ t) = true
text_lt (a ∷ s) [] = false
text_lt (a ∷ s) (b ∷ t) = ltb a b || ((a == b) && text_lt s t)

unfoldable pub is_empty : Text → Bool
is_empty [] = true
is_empty (c ∷ s) = false

-- `unicode.IsSpace`.
unfoldable pub is_space : ℕ → Bool
is_space c =
    (leb 9 c && leb c 13)
    || (c == 32)
    || (c == 0x85)
    || (c == 0xA0)
    || (c == 0x1680)
    || (leb 0x2000 c && leb c 0x200A)
    || (c == 0x2028)
    || (c == 0x2029)
    || (c == 0x202F)
    || (c == 0x205F)
    || (c == 0x3000)

unfoldable pub trim_left : Text → Text
unfolding is_space
trim_left [] = []
trim_left (c ∷ s) = if is_space c then trim_left s else c ∷ s

-- Trailing spaces: a space is dropped when nothing else is left behind it.
unfoldable pub trim_right : Text → Text
unfolding is_space
trim_right [] = []
trim_right (c ∷ s) = elim (trim_right s) [
  | [] ↦ if is_space c then [] else c ∷ []
  | d ∷ r ↦ c ∷ d ∷ r
]

-- `strings.TrimSpace`.
unfoldable pub trim_space : Text → Text
unfolding trim_left trim_right
trim_space s = trim_right (trim_left s)

unfoldable pub has_prefix : Text → Text → Bool
has_prefix s [] = true
has_prefix [] (p ∷ ps) = false
has_prefix (c ∷ s) (p ∷ ps) = (c == p) && has_prefix s ps

-- `strings.CutSuffix`: what stands before the suffix.
unfoldable pub cut_suffix : Text → Text → Option Text
unfolding text_eq
cut_suffix [] suffix = if text_eq [] suffix then some [] else none
cut_suffix (c ∷ s) suffix =
    if text_eq (c ∷ s) suffix
    then some []
    else elim (cut_suffix s suffix) [ none ↦ none | some r ↦ some (c ∷ r) ]

unfoldable pub has_suffix : Text → Text → Bool
unfolding cut_suffix
has_suffix s suffix = elim (cut_suffix s suffix) [ none ↦ false | some r ↦ true ]

unfoldable pub trim_suffix : Text → Text → Text
unfolding cut_suffix
trim_suffix s suffix = elim (cut_suffix s suffix) [ none ↦ s | some r ↦ r ]

-- `s[strings.Index(s, sep) + 1:]` for a one-character `sep`, or none where `Index` gives -1.
unfoldable pub after_first : ℕ → Text → Option Text
after_first sep [] = none
after_first sep (c ∷ s) = if c == sep then some s else after_first sep s

-- `s[:strings.Index(s, sep)]`, all of `s` where there is no `sep`.
unfoldable pub before_first : ℕ → Text → Text
before_first sep [] = []
before_first sep (c ∷ s) = if c == sep then [] else c ∷ before_first sep s

-- `strings.Split` at one character.
unfoldable pub split : ℕ → Text → List Text
split sep [] = [] ∷ []
split sep (c ∷ s) =
    if c == sep
    then [] ∷ split sep s
    else elim (split sep s) [ [] ↦ (c ∷ []) ∷ [] | part ∷ parts ↦ (c ∷ part) ∷ parts ]
