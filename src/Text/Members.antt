-- ===== src/Text/Members.antt =====
-- The keys of a Go map from strings, as the list of them.
use yafe.Prelude.{◌≡◌, ◌↔◌, Bool, true, false, ◌||◌, List, [], ◌∷◌, In, arith}
use yafe.Text.{Text, text_eq}
use yafe.Text.Laws.{text_eq_iff}

unfoldable pub member : Text → List Text → Bool
unfolding text_eq
member name [] = false
member name (n ∷ names) = text_eq name n || member name names

pub member_iff : (name : Text) (names : List Text) → (member name names ≡ true) ↔ In name names
unfolding member
member_iff name [] = ground arith
member_iff name (n ∷ names) = ground (arith, text_eq_iff name n, member_iff name names)
