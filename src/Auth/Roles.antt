-- ===== src/Auth/Roles.antt =====
-- `ParseRoles`.
use yafe.Prelude.{
  ◌≡◌, inl, inr, refl, Bool, true, false, List, [], ◌∷◌, ◌++◌, arith, Bool-cases, ◌||◌,
}
use yafe.Text.{Text, text_eq, trim_space, is_empty, split}
use yafe.Text.Laws.{text_eq_iff}
use yafe.Result.{ok, Result-cases}
use yafe.Auth.{Role, role_text, role_eq, parse_role, contains, parse_parts, parse_roles}

-- No member of the list occurs again behind itself.
abbrev pub IsDistinct : List Role → Type 0
IsDistinct [] = Unit
IsDistinct (role ∷ roles) = (contains role roles ≡ false) × IsDistinct roles

-- Some part, without the space around it, is the name of the role.
abbrev pub named_in : Role → List Text → Bool
named_in r [] = false
named_in r (part ∷ parts) = text_eq (role_text r) (trim_space part) || named_in r parts

contains-append :
    (r : Role) (roles : List Role) (role : Role)
    → contains r (roles ++ (role ∷ [])) ≡ (contains r roles || role_eq role r)
unfolding contains
contains-append r [] role = ground arith
contains-append r (s ∷ roles) role = ground (arith, contains-append r roles role)

role_eq_comm : (a b : Role) → role_eq a b ≡ role_eq b a
unfolding role_eq
role_eq_comm a b =
    ground (arith, text_eq_iff (role_text a) (role_text b), text_eq_iff (role_text b) (role_text a))

append-IsDistinct :
    (roles : List Role) (role : Role)
    → IsDistinct roles
    → contains role roles ≡ false
    → IsDistinct (roles ++ (role ∷ []))
unfolding contains
append-IsDistinct [] role d h = (refl, tt)
append-IsDistinct (s ∷ roles) role d h = (
  ground (arith, contains-append s roles role, role_eq_comm s role, d.0),
  append-IsDistinct roles role d.1 (ground arith),
)

parse_role-role_text :
    (name : Text) (role : Role) → parse_role name ≡ ok role → role_text role ≡ name
unfolding parse_role
parse_role-role_text name role h = ground (arith, text_eq_iff (role_text role) name)

role_eq-named :
    (role r : Role) (name : Text)
    → role_text role ≡ name
    → role_eq role r ≡ text_eq (role_text r) name
unfolding role_eq
role_eq-named role r name h =
    ground (arith, text_eq_iff (role_text role) (role_text r), text_eq_iff (role_text r) name)

-- A list contains a role by its name.
contains_same :
    (a b : Role) (roles : List Role) → role_eq a b ≡ true → contains a roles ≡ contains b roles
unfolding contains role_eq
contains_same a b [] h = refl
contains_same a b (s ∷ roles) h = ground (
  arith,
  contains_same a b roles h,
  text_eq_iff (role_text a) (role_text b),
  text_eq_iff (role_text s) (role_text a),
  text_eq_iff (role_text s) (role_text b),
)

parse_parts_lem :
    (acc : List Role) (parts : List Text) (roles : List Role)
    → IsDistinct acc
    → parse_parts acc parts ≡ ok roles
    → IsDistinct roles × ((r : Role) → contains r roles ≡ (contains r acc || named_in r parts))
unfolding parse_parts
parse_parts_lem acc [] roles d h = ground arith
parse_parts_lem acc (part ∷ parts) roles d h = elim (Result-cases (parse_role (trim_space part))) [
  | inl (role, p) ↦
      let same = λ (r : Role).
        role_eq-named role r (trim_space part) (parse_role-role_text (trim_space part) role p) in
      elim (Bool-cases (contains role acc)) [
        | inl there ↦
            let rest = parse_parts_lem acc parts roles d (ground (arith, p, there, h)) in
            (rest.0, λ r. ground (arith, rest.1 r, same r, contains_same role r acc, there))
        | inr new ↦
            let rest =
              parse_parts_lem (acc ++ (role ∷ [])) parts roles (append-IsDistinct acc role d new)
                (ground (arith, p, new, h)) in
            (rest.0, λ r. ground (arith, rest.1 r, contains-append r acc role, same r))
      ]
  | inr (e, p) ↦ ground (arith, p, h)
]

-- If `ParseRoles` returns roles for a text that is not empty, no role is twice among them, and a role
-- is among them exactly if one of the parts between the commas is its name, up to space around it.
pub parse_roles_lem :
    (s : Text) (roles : List Role)
    → is_empty s ≡ false
    → parse_roles s ≡ ok roles
    → IsDistinct roles × ((r : Role) → contains r roles ≡ named_in r (split b',' s))
unfolding parse_roles contains
parse_roles_lem s roles some_text h =
    parse_parts_lem [] (split b',' s) roles tt (ground (arith, some_text, h))
