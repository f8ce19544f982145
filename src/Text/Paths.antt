-- ===== src/Text/Paths.antt =====
-- `filepath.Clean` and `filepath.Join` on a Unix system.
use yafe.Prelude.{Bool, ◌||◌, List, [], ◌∷◌, ◌++◌, if◌then◌else◌}
use mathlib.Core.List.{reverse}
use yafe.Text.{Text, codes, text_eq, is_empty, has_prefix, split}

-- One more component behind those of the stack, whose top is the last: `.` and empty components are
-- dropped, and `..` takes the one before it away, if there is one, and vanishes at the root.
unfoldable pub push_part : Bool → Text → List Text → List Text
unfolding text_eq is_empty
push_part rooted part stack =
    if is_empty part || text_eq part (codes ".")
    then stack
    else if text_eq part (codes "..")
    then elim stack [
      | [] ↦ if rooted then [] else part ∷ []
      | top ∷ rest ↦ if text_eq top (codes "..") then part ∷ top ∷ rest else rest
    ]
    else part ∷ stack

unfoldable pub push_parts : Bool → List Text → List Text → List Text
unfolding push_part
push_parts rooted [] stack = stack
push_parts rooted (part ∷ parts) stack = push_parts rooted parts (push_part rooted part stack)

-- `strings.Join(parts, "/")`
unfoldable pub join_parts : List Text → Text
join_parts [] = []
join_parts (part ∷ []) = part
join_parts (part ∷ next ∷ parts) = part ++ (b'/' ∷ join_parts (next ∷ parts))

unfoldable pub clean : Text → Text
unfolding has_prefix split push_parts join_parts is_empty
clean path =
    let rooted = has_prefix path (codes "/") in
    let body = join_parts (reverse (push_parts rooted (split b'/' path) [])) in
    if rooted then b'/' ∷ body else if is_empty body then codes "." else body

-- `filepath.Join` of two elements, of which empty ones are left out.
unfoldable pub join : Text → Text → Text
unfolding clean is_empty
join base name =
    if is_empty base
    then (if is_empty name then [] else clean name)
    else clean (base ++ (b'/' ∷ name))
