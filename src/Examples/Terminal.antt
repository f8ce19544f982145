-- ===== src/Examples/Terminal.antt =====
-- A table with a row that is too short and one with a character of two bytes.
use yafe.Prelude.{ℕ, ◌≡◌, some, List, [], ◌∷◌, length, All}
use yafe.Text.{codes}
use yafe.Output.{Bytes, new_table, rune_count, render}
use yafe.Output.Aligned.{add_rows, render_aligned}

render_aligned_example :
    (n : ℕ) × (lines : List Bytes) × (render (
        add_rows
          ((codes "a1" ∷ []) ∷ (codes "b" ∷ (0xC3 ∷ 0xA9 ∷ []) ∷ []) ∷ [])
          (new_table (codes "ID" ∷ codes "FLOW" ∷ [])))
      ≡ some lines)
    × (length lines ≡ 3)
    × All (λ line. rune_count line ≡ n) lines
render_aligned_example =
    render_aligned (codes "ID" ∷ codes "FLOW" ∷ [])
      ((codes "a1" ∷ []) ∷ (codes "b" ∷ (0xC3 ∷ 0xA9 ∷ []) ∷ []) ∷ [])
