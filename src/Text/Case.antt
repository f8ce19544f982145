-- ===== src/Text/Case.antt =====
-- `strings.ToLower` for a text that is compared with words of the letters from `a` to `z`: the capital
-- letters and the two other characters that Unicode lowers to one of these letters. The further
-- letters, which are lowered to others outside these words, stay.
use yafe.Prelude.{ℕ, ◌+◌, ◌&&◌, ◌==◌, map, leb, if◌then◌else◌}
use yafe.Text.{Text}

unfoldable pub lower : ℕ → ℕ
lower c =
    if leb b'A' c && leb c b'Z'
    then c + 32
    else (if c == 0x130 then b'i' else (if c == 0x212A then b'k' else c))

unfoldable pub to_lower : Text → Text
unfolding lower
to_lower = map lower
