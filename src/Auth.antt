-- ===== src/Auth.antt =====
-- internal/auth: roles, users, and the three authenticators. bcrypt is a parameter, and so is the
-- scanner that splits a file into lines.
pub mod Roles
pub mod Users
pub mod Middleware
use yafe.Prelude.{
  ℕ, Bool, true, false, ◌||◌, ◌&&◌, not, Option, none, some, List, [], ◌∷◌, ◌++◌, ◌==◌,
  if◌then◌else◌,
}
use yafe.Text.{
  Text, codes, text_eq, is_empty, trim_space, has_prefix, after_first, before_first, split,
}
use yafe.Result.{Error, Result, ok, err, ◌>>=◌, ◌>>◌, failure, wrapped, invalid_role}
use yafe.Disk.{FilePath, Io, read_file}
use yafe.Exec.{pure, raise, lift, wrap}

pub data Role : Type 0 where
  jobs_read jobs_write flows_read flows_write schedules_read schedules_write : Role

-- `RoleValues`
abbrev pub role_values : List Role
role_values =
    jobs_read ∷ jobs_write ∷ flows_read ∷ flows_write ∷ schedules_read ∷ schedules_write ∷ []

-- `Role.String`
abbrev pub role_text : Role → Text
role_text jobs_read = codes "jobs:read"
role_text jobs_write = codes "jobs:write"
role_text flows_read = codes "flows:read"
role_text flows_write = codes "flows:write"
role_text schedules_read = codes "schedules:read"
role_text schedules_write = codes "schedules:write"

unfoldable pub role_eq : Role → Role → Bool
role_eq a b = text_eq (role_text a) (role_text b)

-- `ParseRole`, with the table `_RoleValue` as the list of the roles.
parse_among : Text → List Role → Result Role
parse_among name [] = err (wrapped invalid_role)
parse_among name (role ∷ roles) =
    if text_eq (role_text role) name then ok role else parse_among name roles

unfoldable pub parse_role : Text → Result Role
unfolding parse_among
parse_role name = parse_among name role_values

unfoldable pub contains : Role → List Role → Bool
contains r [] = false
contains r (role ∷ roles) = role_eq role r || contains r roles

-- The loop of `ParseRoles`; its map `seen` holds the roles that are in the list already.
unfoldable pub parse_parts : List Role → List Text → Result (List Role)
parse_parts roles [] = ok roles
parse_parts roles (part ∷ parts) = elim (parse_role (trim_space part)) [
  | ok role ↦ parse_parts (if contains role roles then roles else roles ++ (role ∷ [])) parts
  | err e ↦ err e
]

unfoldable pub parse_roles : Text → Result (List Role)
parse_roles s = if is_empty s then ok [] else parse_parts [] (split b',' s)

pub record User : Type 0 where
  pub name : Text
  pub hash : Text
  pub roles : List Role

-- `HasRole`
unfoldable pub has_role : Role → User → Bool
has_role r user = contains r user.roles

-- What `parseLine` and `NewInlineAuthenticator` want of a hash.
abbrev pub hash_prefix : Text
hash_prefix = codes "$2"

-- `parseLine`: the fields of `user:hash[:roles]`. Only the third may have further colons.
unfoldable pub user_of : Text → Text → Text → Result User
user_of name hash roles =
    if is_empty name
    then err failure
    else if is_empty hash
    then err failure
    else if not (has_prefix hash hash_prefix)
    then err failure
    else (elim (parse_roles roles) [
      | ok parsed ↦ ok (record { name = name; hash = hash; roles = parsed })
      | err e ↦ err e
    ])

-- The roles of a line, which may end before them.
abbrev pub third : Option Text → Text
third none = []
third (some roles) = roles

unfoldable pub parse_line : Text → Result User
parse_line line = elim (after_first b':' line) [
  | none ↦ err failure
  | some rest ↦
      user_of (trim_space (before_first b':' line)) (trim_space (before_first b':' rest))
        (third (after_first b':' rest))
]

unfoldable pub known : Text → List User → Bool
known name [] = false
known name (user ∷ users) = text_eq user.name name || known name users

-- A line that holds no user.
unfoldable pub is_skipped : Text → Bool
is_skipped line = is_empty line || has_prefix line (codes "#")

-- The loop of `NewFileAuthenticator`.
unfoldable pub load_users : List User → List Text → Result (List User)
load_users users [] = ok users
load_users users (line ∷ lines) =
    if is_skipped (trim_space line)
    then load_users users lines
    else (elim (parse_line (trim_space line)) [
      | ok user ↦
          if known user.name users then err failure else load_users (users ++ (user ∷ [])) lines
      | err e ↦ err (wrapped e)
    ])

-- `NewFileAuthenticator`; `scan` gives the lines that the scanner yields and its error.
unfoldable pub new_file_authenticator :
    {C : Type 0} → (C → List Text × Result (Unit {0})) → FilePath → Io C (List User)
new_file_authenticator scan path disk =
    let (contents, after) = wrap (read_file path) disk in
    (
      elim contents [
        | ok c ↦ elim (load_users [] (scan c).0) [
          | ok users ↦ elim (scan c).1 [ ok _ ↦ ok users | err e ↦ err (wrapped e) ]
          | err e ↦ err e
        ]
        | err e ↦ err e
      ],
      after,
    )

-- `NewInlineAuthenticator`
unfoldable pub new_inline_authenticator : Text → Text → Text → Result User
new_inline_authenticator name hash roles = user_of name hash roles

-- `Authenticator`
abbrev pub Authenticator : Type 0
Authenticator = Text → Option User

-- `matches` is bcrypt's comparison of a hash with a key.
module _ (matches : Text → Text → Bool) where
  -- `FileAuthenticator.Authenticate`
  unfoldable pub file_authenticate : List User → Authenticator
  file_authenticate [] key = none
  file_authenticate (user ∷ users) key =
      if matches user.hash key then some user else file_authenticate users key

  -- `InlineAuthenticator.Authenticate`
  unfoldable pub inline_authenticate : User → Authenticator
  inline_authenticate user key = if matches user.hash key then some user else none

-- `MultiAuthenticator.Authenticate`
unfoldable pub multi_authenticate : List Authenticator → Authenticator
multi_authenticate [] key = none
multi_authenticate (auth ∷ auths) key = elim (auth key) [
  | none ↦ multi_authenticate auths key
  | some user ↦ some user
]
