-- ===== src/Auth/Users.antt =====
-- The users that a file gives, and the order in which authenticators are tried.
use yafe.Prelude.{
  ◌≡◌, inl, inr, refl, Bool, true, false, none, some, List, [], ◌∷◌, ◌++◌, arith, Bool-cases,
  Option-cases, All, map,
}
use yafe.Text.{Text, text_eq, is_empty, has_prefix, trim_space, after_first, before_first}
use yafe.Text.Laws.{text_eq_iff}
use yafe.Result.{ok, Result-cases}
use yafe.Auth.{
  User, hash_prefix, known, user_of, third, parse_line, load_users, is_skipped, file_authenticate,
  multi_authenticate,
}

-- No two users of the list have the same name.
abbrev pub AreDistinct : List User → Type 0
AreDistinct [] = Unit
AreDistinct (user ∷ users) = (known user.name users ≡ false) × AreDistinct users

-- A user with a name, and with a hash that looks like one of bcrypt.
abbrev pub IsUsable : User → Type 0
IsUsable user = (is_empty user.name ≡ false) × (has_prefix user.hash hash_prefix ≡ true)

user_of-IsUsable :
    (name hash roles : Text) (user : User) → user_of name hash roles ≡ ok user → IsUsable user
unfolding user_of
user_of-IsUsable name hash roles user h = ground arith

parse_line-IsUsable : (line : Text) (user : User) → parse_line line ≡ ok user → IsUsable user
unfolding parse_line
parse_line-IsUsable line user h = elim (Option-cases (after_first b':' line)) [
  | inl e ↦ ground (arith, e, h)
  | inr (rest, e) ↦
      user_of-IsUsable (trim_space (before_first b':' line)) (trim_space (before_first b':' rest))
        (third (after_first b':' rest)) user (ground (arith, e, h))
]

known-append :
    (name : Text) (users : List User) (user : User)
    → known name users ≡ false
    → text_eq user.name name ≡ false
    → known name (users ++ (user ∷ [])) ≡ false
unfolding known
known-append name [] user h k = ground arith
known-append name (other ∷ users) user h k = ground (arith, known-append name users user)

append-AreDistinct :
    (users : List User) (user : User)
    → AreDistinct users
    → known user.name users ≡ false
    → AreDistinct (users ++ (user ∷ []))
unfolding known
append-AreDistinct [] user d h = (refl, tt)
append-AreDistinct (other ∷ users) user d h = (
  known-append other.name users user d.0
      (ground (arith, text_eq_iff user.name other.name, text_eq_iff other.name user.name)),
  append-AreDistinct users user d.1 (ground arith),
)

append-All :
    (users : List User) (user : User)
    → All IsUsable users
    → IsUsable user
    → All IsUsable (users ++ (user ∷ []))
append-All [] user a u = (u, tt)
append-All (other ∷ users) user a u = (a.0, append-All users user a.1 u)

-- If the lines of a file are read without an error, every user has a name and a hash that starts
-- like one of bcrypt, and no two have the same name, if this holds of the users there already.
pub load_users_distinct :
    (users : List User) (lines : List Text) (loaded : List User)
    → AreDistinct users
    → All IsUsable users
    → load_users users lines ≡ ok loaded
    → AreDistinct loaded × All IsUsable loaded
unfolding load_users
load_users_distinct users [] loaded d a h = ground arith
load_users_distinct users (line ∷ lines) loaded d a h =
    elim (Bool-cases (is_skipped (trim_space line))) [
      | inl skip ↦ load_users_distinct users lines loaded d a (ground (arith, skip, h))
      | inr read ↦ elim (Result-cases (parse_line (trim_space line))) [
        | inr (e, p) ↦ ground (arith, read, p, h)
        | inl (user, p) ↦ elim (Bool-cases (known user.name users)) [
          | inl twice ↦ ground (arith, read, p, twice, h)
          | inr new ↦
              load_users_distinct (users ++ (user ∷ [])) lines loaded
                (append-AreDistinct users user d new)
                (append-All users user a (parse_line-IsUsable (trim_space line) user p))
                (ground (arith, read, p, new, h))
        ]
      ]
    ]

abbrev pub concat : List (List User) → List User
concat [] = []
concat (users ∷ rest) = users ++ concat rest

module _ (matches : Text → Text → Bool) where
  file_authenticate-append :
      (users others : List User) (key : Text)
      → file_authenticate matches (users ++ others) key
        ≡ (elim (file_authenticate matches users key) [
          | none ↦ file_authenticate matches others key
          | some user ↦ some user
        ])
  unfolding file_authenticate
  file_authenticate-append [] others key = refl
  file_authenticate-append (user ∷ users) others key =
      ground (arith, file_authenticate-append users others key)

  -- To try several lists of users one after the other is to try the one list that they make.
  pub multi_authenticate_files :
      (files : List (List User)) (key : Text)
      → multi_authenticate (map (file_authenticate matches) files) key
        ≡ file_authenticate matches (concat files) key
  unfolding multi_authenticate file_authenticate
  multi_authenticate_files [] key = refl
  multi_authenticate_files (users ∷ files) key =
      ground (
        arith,
        file_authenticate-append users (concat files) key,
        multi_authenticate_files files key,
      )
