-- ===== src/Output/Aligned.antt =====
-- The lines of a table are equally wide.
use mathlib.Core.List.{append_assoc}
use yafe.Prelude.{
  ℕ, zero, suc, ◌+◌, ◌-◌, ◌≤◌, ◌≡◌, refl, ap, ◌∙◌, true, Bool, false, ltb, some, List, [], ◌∷◌,
  ◌++◌, arith, length, length-append, All, All-map, All-append,
}
use yafe.Output.{
  Bytes, Table, lengths, new_table, fit_row, widen, add_row, is_second, continued, following,
  extra_bytes, runes_from, rune_count, spaces, pad, print_cells, print_row, print_rows, render,
}

-- The text begins with a character of ASCII, which no rune before it takes in.
abbrev is_ascii : Bytes → Bool
is_ascii [] = false
is_ascii (c ∷ s) = ltb c 0x80

continued-append : (n : ℕ) (s t : Bytes) → is_ascii t ≡ true → continued n (s ++ t) ≡ continued n s
unfolding continued
continued-append zero s t h = refl
continued-append (suc n) [] [] h = refl
continued-append (suc n) [] (c ∷ t) h = ground arith
continued-append (suc n) (c ∷ s) t h = ground (arith, continued-append n s t h)

is_second-ascii : (c : ℕ) (t : Bytes) → is_ascii t ≡ true → is_second c t ≡ false
is_second-ascii c [] h = refl
is_second-ascii c (d ∷ t) h = ground arith

extra_bytes-append :
    (c : ℕ) (s t : Bytes) → is_ascii t ≡ true → extra_bytes c (s ++ t) ≡ extra_bytes c s
unfolding extra_bytes
extra_bytes-append c [] t h = ground (arith, is_second-ascii c t h)
extra_bytes-append c (d ∷ s) t h = rw (continued-append (following c) (d ∷ s) t h) refl

continued-length : (n : ℕ) (s : Bytes) → continued n s ≡ true → n ≤ length s
unfolding continued
continued-length zero s h = omega arith
continued-length (suc n) [] h = ground arith
continued-length (suc n) (c ∷ s) h = ground (arith, continued-length n s)

extra_bytes-length : (c : ℕ) (s : Bytes) → extra_bytes c s ≤ length s
unfolding extra_bytes
extra_bytes-length c s = ground (arith, continued-length (following c) s)

runes_from-append :
    (skip : ℕ) (s t : Bytes)
    → skip ≤ length s
    → is_ascii t ≡ true
    → runes_from skip (s ++ t) ≡ runes_from skip s + runes_from 0 t
unfolding runes_from
runes_from-append zero [] t h k = omega arith
runes_from-append (suc skip) [] t h k = ground arith
runes_from-append zero (c ∷ s) t h k =
    rw (extra_bytes-append c s t k)
      (omega (arith, runes_from-append (extra_bytes c s) s t (extra_bytes-length c s) k))
runes_from-append (suc skip) (c ∷ s) t h k = runes_from-append skip s t (omega arith) k

rune_count-append :
    (s t : Bytes) → is_ascii t ≡ true → rune_count (s ++ t) ≡ rune_count s + rune_count t
unfolding rune_count
rune_count-append s t h = runes_from-append 0 s t (omega arith) h

extra_bytes-ascii : (c : ℕ) (s : Bytes) → is_ascii (c ∷ s) ≡ true → extra_bytes c s ≡ 0
unfolding extra_bytes
extra_bytes-ascii c s h = ground arith

rune_count-ascii :
    (c : ℕ) (s : Bytes) → is_ascii (c ∷ s) ≡ true → rune_count (c ∷ s) ≡ suc (rune_count s)
unfolding rune_count runes_from
rune_count-ascii c s h = ap (λ n. suc (runes_from n s)) (extra_bytes-ascii c s h)

spaces-is_ascii : (n : ℕ) (t : Bytes) → is_ascii t ≡ true → is_ascii (spaces n ++ t) ≡ true
spaces-is_ascii zero t h = h
spaces-is_ascii (suc n) t h = refl

rune_count-spaces : (n : ℕ) (t : Bytes) → rune_count (spaces n ++ t) ≡ n + rune_count t
rune_count-spaces zero t = omega arith
rune_count-spaces (suc n) t =
    omega (arith, rune_count-ascii 32 (spaces n ++ t) refl, rune_count-spaces n t)

runes_from-length : (skip : ℕ) (s : Bytes) → runes_from skip s ≤ length s
unfolding runes_from
runes_from-length skip [] = omega arith
runes_from-length zero (c ∷ s) = omega (arith, runes_from-length (extra_bytes c s) s)
runes_from-length (suc skip) (c ∷ s) = omega (arith, runes_from-length skip s)

rune_count-length : (s : Bytes) → rune_count s ≤ length s
unfolding rune_count
rune_count-length s = runes_from-length 0 s

rune_count-pad :
    (w : ℕ) (s t : Bytes)
    → length s ≤ w
    → is_ascii t ≡ true
    → rune_count (pad w s ++ t) ≡ w + rune_count t
unfolding pad
rune_count-pad w s t h k =
    let n = w - rune_count s in
    ap rune_count (append_assoc s (spaces n) t)
    ∙ rune_count-append s (spaces n ++ t) (spaces-is_ascii n t k)
    ∙ omega (arith, rune_count-spaces n t, rune_count-length s)

-- A row has a cell for each width, which is no longer than that.
abbrev Fits : List ℕ → List Bytes → Type 0
Fits [] [] = Unit
Fits (w ∷ widths) (v ∷ row) = (length v ≤ w) × Fits widths row
Fits _ _ = ⊥

-- What a line needs behind its first cell, with the end of the line.
abbrev cells_width : List ℕ → ℕ
cells_width [] = 1
cells_width (w ∷ widths) = 2 + (w + cells_width widths)

abbrev pub line_width : List ℕ → ℕ
line_width [] = 1
line_width (w ∷ widths) = w + cells_width widths

cells_printed :
    (widths : List ℕ) (row : List Bytes)
    → Fits widths row
    → (line : Bytes) × (print_cells widths row ≡ some line)
      × (rune_count line ≡ cells_width widths)
      × (is_ascii line ≡ true)
unfolding print_cells rune_count
cells_printed [] [] h = (10 ∷ [], refl, refl, refl)
cells_printed [] (v ∷ row) h = absurd h
cells_printed (w ∷ widths) [] h = absurd h
cells_printed (w ∷ widths) (v ∷ row) (fits, h) =
    let (rest, e, n, ascii) = cells_printed widths row h in
    (
      32 ∷ 32 ∷ (pad w v ++ rest),
      rw e refl,
      omega (
        arith,
        rune_count-ascii 32 (32 ∷ (pad w v ++ rest)) refl,
        rune_count-ascii 32 (pad w v ++ rest) refl,
        rune_count-pad w v rest fits ascii,
        n,
      ),
      refl,
    )

row_printed :
    (widths : List ℕ) (row : List Bytes)
    → Fits widths row
    → (line : Bytes) × (print_row widths row ≡ some line) × (rune_count line ≡ line_width widths)
unfolding print_row rune_count
row_printed [] [] h = (10 ∷ [], refl, refl)
row_printed [] (v ∷ row) h = absurd h
row_printed (w ∷ widths) [] h = absurd h
row_printed (w ∷ widths) (v ∷ row) (fits, h) =
    let (rest, e, n, ascii) = cells_printed widths row h in
    (pad w v ++ rest, rw (print_row, e) refl, omega (arith, rune_count-pad w v rest fits ascii, n))

abbrev Wide : ℕ → List Bytes → Type 0
Wide n = All (λ line. rune_count line ≡ n)

rows_printed :
    (widths : List ℕ) (rows : List (List Bytes))
    → All (Fits widths) rows
    → (lines : List Bytes) × (print_rows widths rows ≡ some lines)
      × (length lines ≡ length rows)
      × Wide (line_width widths) lines
unfolding print_rows
rows_printed widths [] h = ([], refl, refl, tt)
rows_printed widths (row ∷ rows) (fits, h) =
    let (line, e, n) = row_printed widths row fits in
    let (lines, e', l, n') = rows_printed widths rows h in
    (line ∷ lines, rw (print_rows, e) (rw e' refl), omega (arith, l), (n, n'))

Fits-headers : (headers : List Bytes) → Fits (lengths headers) headers
Fits-headers [] = tt
Fits-headers (h ∷ headers) = (omega arith, Fits-headers headers)

Fits-widen :
    (widths : List ℕ) (row other : List Bytes) → Fits widths row → Fits (widen widths other) row
unfolding widen
Fits-widen [] [] other h = tt
Fits-widen [] (v ∷ row) other h = absurd h
Fits-widen (w ∷ widths) [] other h = absurd h
Fits-widen (w ∷ widths) (v ∷ row) [] h = h
Fits-widen (w ∷ widths) (v ∷ row) (u ∷ other) (fits, h) =
    (ground arith, Fits-widen widths row other h)

Fits-fit_row :
    (widths : List ℕ) (headers values : List Bytes)
    → Fits widths headers
    → Fits (widen widths (fit_row headers values)) (fit_row headers values)
unfolding widen fit_row
Fits-fit_row [] [] values h = tt
Fits-fit_row [] (x ∷ headers) values h = absurd h
Fits-fit_row (w ∷ widths) [] values h = absurd h
Fits-fit_row (w ∷ widths) (x ∷ headers) [] (fits, h) =
    (ground arith, Fits-fit_row widths headers [] h)
Fits-fit_row (w ∷ widths) (x ∷ headers) (v ∷ values) (fits, h) =
    (ground arith, Fits-fit_row widths headers values h)

-- The headers and the rows of a table fit its widths.
abbrev TableFits : Table → Type 0
TableFits table = Fits table.widths table.headers × All (Fits table.widths) table.rows

TableFits-add_row :
    (values : List Bytes) (table : Table) → TableFits table → TableFits (add_row values table)
unfolding add_row
TableFits-add_row values table (fits, rows) =
    let row = fit_row table.headers values in
    let widths = widen table.widths row in
    (
      Fits-widen table.widths table.headers row fits,
      All-append (Fits widths) table.rows (row ∷ [])
          (All-map (λ r h. Fits-widen table.widths r row h) table.rows rows)
          (Fits-fit_row table.widths table.headers values fits, tt),
    )

-- `AddRow` for one row after the other.
abbrev pub add_rows : List (List Bytes) → Table → Table
add_rows [] table = table
add_rows (values ∷ rows) table = add_rows rows (add_row values table)

length-add_row :
    (values : List Bytes) (table : Table)
    → length (add_row values table).rows ≡ suc (length table.rows)
unfolding add_row
length-add_row values table =
    omega (arith, length-append table.rows (fit_row table.headers values ∷ []))

added :
    (rows : List (List Bytes)) (table : Table)
    → TableFits table
    → TableFits (add_rows rows table)
      × (length (add_rows rows table).rows ≡ length table.rows + length rows)
added [] table h = (h, omega arith)
added (values ∷ rows) table h =
    let (fits, n) = added rows (add_row values table) (TableFits-add_row values table h) in
    (fits, omega (arith, n, length-add_row values table))

-- A table to which rows of any numbers of values were added is rendered without a panic, as a line of
-- headers and a line for each row, and all of these lines have the same number of runes.
pub render_aligned :
    (headers : List Bytes) (rows : List (List Bytes))
    → (n : ℕ) × (lines : List Bytes) × (render (add_rows rows (new_table headers)) ≡ some lines)
      × (length lines ≡ suc (length rows))
      × All (λ line. rune_count line ≡ n) lines
unfolding render new_table
render_aligned headers rows =
    let table = add_rows rows (new_table headers) in
    let (fits, n) = added rows (new_table headers) (Fits-headers headers, tt) in
    let (lines, e, l, wide) = rows_printed table.widths (table.headers ∷ table.rows) fits in
    (line_width table.widths, lines, e, omega (arith, l, n), wide)
