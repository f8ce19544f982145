-- ===== src/Output.antt =====
-- internal/output/output.go: tables and values for the terminal. Lengths are those of bytes, so a text
-- is here the list of its bytes, in UTF-8. A panic is none.
pub mod Aligned
use yafe.Prelude.{
  ℕ, zero, suc, ◌+◌, ◌-◌, Bool, true, false, ◌&&◌, not, Option, none, some, List, [], ◌∷◌, ◌++◌,
  length, ltb, leb, ◌==◌, if◌then◌else◌,
}
use yafe.Text.{split}

abbrev pub Bytes : Type 0
Bytes = List ℕ

pub record Table : Type 0 where
  pub headers : List Bytes
  pub rows : List (List Bytes)
  pub widths : List ℕ

abbrev pub lengths : List Bytes → List ℕ
lengths [] = []
lengths (h ∷ headers) = length h ∷ lengths headers

-- `NewTable`
unfoldable pub new_table : List Bytes → Table
new_table headers = record { headers = headers; rows = []; widths = lengths headers }

-- As many cells as there are headers; `-` for a value that is missing.
unfoldable pub fit_row : List Bytes → List Bytes → List Bytes
fit_row [] values = []
fit_row (h ∷ headers) [] = (b'-' ∷ []) ∷ fit_row headers []
fit_row (h ∷ headers) (v ∷ values) = v ∷ fit_row headers values

unfoldable pub widen : List ℕ → List Bytes → List ℕ
widen [] row = []
widen (w ∷ widths) [] = w ∷ widths
widen (w ∷ widths) (v ∷ row) = (if ltb w (length v) then length v else w) ∷ widen widths row

unfoldable pub add_row : List Bytes → Table → Table
unfolding fit_row widen
add_row values table =
    let row = fit_row table.headers values in
    record table { rows = table.rows ++ (row ∷ []); widths = widen table.widths row }

-- How many bytes follow a first byte in UTF-8, and whether one may be the second.
abbrev following : ℕ → ℕ
following c =
    if ltb c 0xC2
    then 0
    else if ltb c 0xE0
    then 1
    else if ltb c 0xF0
    then 2
    else if ltb c 0xF5
    then 3
    else 0

abbrev is_second : ℕ → Bytes → Bool
is_second c [] = false
is_second c (d ∷ s) =
    leb (if c == 0xE0 then 0xA0 else if c == 0xF0 then 0x90 else 0x80) d
    && leb d (if c == 0xED then 0x9F else if c == 0xF4 then 0x8F else 0xBF)

unfoldable pub continued : ℕ → Bytes → Bool
continued zero s = true
continued (suc n) [] = false
continued (suc n) (c ∷ s) = leb 0x80 c && ltb c 0xC0 && continued n s

-- The bytes of the first rune behind its first; a byte that begins none is a rune of its own.
unfoldable pub extra_bytes : ℕ → Bytes → ℕ
unfolding continued
extra_bytes c s = if continued (following c) s && is_second c s then following c else 0

-- `utf8.RuneCountInString`, with the bytes that are left of a rune.
unfoldable pub runes_from : ℕ → Bytes → ℕ
unfolding extra_bytes
runes_from skip [] = 0
runes_from zero (c ∷ s) = suc (runes_from (extra_bytes c s) s)
runes_from (suc skip) (c ∷ s) = runes_from skip s

unfoldable pub rune_count : Bytes → ℕ
unfolding runes_from
rune_count s = runes_from 0 s

abbrev pub spaces : ℕ → Bytes
spaces zero = []
spaces (suc n) = 32 ∷ spaces n

-- `%-*s`, which counts runes
unfoldable pub pad : ℕ → Bytes → Bytes
unfolding rune_count
pad width s = s ++ spaces (width - rune_count s)

-- The cells behind the first; a cell without a width is an index out of range.
unfoldable pub print_cells : List ℕ → List Bytes → Option Bytes
unfolding pad
print_cells widths [] = some (10 ∷ [])
print_cells [] (v ∷ values) = none
print_cells (w ∷ widths) (v ∷ values) = elim (print_cells widths values) [
  | none ↦ none
  | some rest ↦ some (32 ∷ 32 ∷ (pad w v ++ rest))
]

unfoldable pub print_row : List ℕ → List Bytes → Option Bytes
unfolding print_cells pad
print_row widths [] = some (10 ∷ [])
print_row [] (v ∷ values) = none
print_row (w ∷ widths) (v ∷ values) = elim (print_cells widths values) [
  | none ↦ none
  | some rest ↦ some (pad w v ++ rest)
]

-- The lines that `Render` writes.
unfoldable pub print_rows : List ℕ → List (List Bytes) → Option (List Bytes)
unfolding print_row
print_rows widths [] = some []
print_rows widths (row ∷ rows) = elim (print_row widths row) [
  | none ↦ none
  | some line ↦ elim (print_rows widths rows) [ none ↦ none | some lines ↦ some (line ∷ lines) ]
]

unfoldable pub render : Table → Option (List Bytes)
unfolding print_rows
render table = print_rows table.widths (table.headers ∷ table.rows)

abbrev pub take : ℕ → Bytes → Bytes
take zero s = []
take (suc n) [] = []
take (suc n) (c ∷ s) = c ∷ take n s

-- `TruncateString` for a length that is not negative
unfoldable pub truncate_string : Bytes → ℕ → Bytes
truncate_string s max_len =
    if leb (length s) max_len
    then s
    else (if leb max_len 3
        then take max_len s
        else take (max_len - 3) s ++ (b'.' ∷ b'.' ∷ b'.' ∷ []))

-- `FormatString`
unfoldable pub format_string : Bytes → Bytes
format_string [] = b'-' ∷ []
format_string (c ∷ s) = c ∷ s

-- `FormatTime` and `FormatInt`; `format` is `time.Format`, and `strconv.Itoa`.
unfoldable pub format_time : (ℕ → Bytes) → Option ℕ → Bytes
format_time format none = b'-' ∷ []
format_time format (some t) = format t

unfoldable pub format_int : (ℕ → Bytes) → Option ℕ → Bytes
format_int format none = b'-' ∷ []
format_int format (some n) = format n

pub record KeyValue : Type 0 where
  pub key : Bytes
  pub value : Bytes

unfoldable pub max_key : List KeyValue → ℕ
max_key [] = 0
max_key (p ∷ pairs) =
    let rest = max_key pairs in if ltb rest (length p.key) then length p.key else rest

-- The lines of a value of several lines, empty ones left out.
unfoldable pub print_lines : Bytes → List Bytes → Bytes
print_lines indent [] = []
print_lines indent ([] ∷ lines) = print_lines indent lines
print_lines indent ((c ∷ line) ∷ lines) =
    indent ++ (32 ∷ 32 ∷ ((c ∷ line) ++ (10 ∷ print_lines indent lines)))

-- One pair, with the width of its key; `strings.Split` at the ends of lines gives one part exactly if
-- the value has none.
unfoldable pub print_pair : Bytes → ℕ → KeyValue → Bytes
unfolding pad print_lines split
print_pair indent width p =
    let key = indent ++ pad width (p.key ++ (b':' ∷ [])) in
    elim (split 10 p.value) [
      | [] ↦ key ++ (10 ∷ [])
      | line ∷ lines ↦ elim lines [
        | [] ↦ key ++ (32 ∷ 32 ∷ (p.value ++ (10 ∷ [])))
        | next ∷ rest ↦ key ++ (10 ∷ print_lines indent (line ∷ next ∷ rest))
      ]
    ]

print_pairs : Bytes → ℕ → List KeyValue → Bytes
unfolding print_pair
print_pairs indent width [] = []
print_pairs indent width (p ∷ pairs) = print_pair indent width p ++ print_pairs indent width pairs

-- `PrintKeyValuesWithIndent`
unfoldable pub print_key_values : List KeyValue → Bytes → Bytes
unfolding max_key print_pairs
print_key_values pairs indent = print_pairs indent (suc (max_key pairs)) pairs
