-- ===== src/Examples/Users.antt =====
-- Witnesses for the users and the routes.
use yafe.Prelude.{◌≡◌, ◌⊎◌, refl, true, false, Option, none, some, [], ◌∷◌, All}
use yafe.Text.{split, before_first, after_first, has_prefix, trim_space, is_empty, codes, text_eq}
use yafe.Auth.{
  known, user_of, parse_line, is_skipped, role_eq, parse_role, parse_parts, Role, jobs_read,
  jobs_write, flows_read, User, Authenticator, has_role, contains, parse_roles, load_users,
  file_authenticate,
}
use yafe.Auth.Roles.{IsDistinct, named_in, parse_roles_lem}
use yafe.Auth.Users.{AreDistinct, IsUsable, load_users_distinct}
use yafe.Auth.Middleware.{
  Request, Handler, reply, authenticated, with_user, middleware, require_role, reached_only,
}
use yafe.Server.Routes.{
  route_role, api_handler, Route, post_jobs, is_write, changes_need_write_role,
}

abbrev writer : User
writer = record { name = codes "ann"; hash = codes "$2x"; roles = jobs_read ∷ jobs_write ∷ [] }

abbrev reader : User
reader = record { name = codes "bob"; hash = codes "$2y"; roles = jobs_read ∷ [] }

parse_roles_lem_example :
    IsDistinct (jobs_read ∷ flows_read ∷ [])
    × ((r : Role)
        → contains r (jobs_read ∷ flows_read ∷ [])
          ≡ named_in r (split b',' (codes "jobs:read, flows:read,jobs:read")))
unfolding parse_roles is_empty parse_parts split parse_role text_eq trim_space contains role_eq
parse_roles_lem_example =
    parse_roles_lem (codes "jobs:read, flows:read,jobs:read") (jobs_read ∷ flows_read ∷ []) refl
      refl

load_users_distinct_example :
    AreDistinct (writer ∷ reader ∷ []) × All IsUsable (writer ∷ reader ∷ [])
unfolding load_users is_skipped is_empty trim_space has_prefix parse_line after_first user_of
    before_first parse_roles parse_parts split parse_role text_eq known contains role_eq
load_users_distinct_example =
    load_users_distinct []
      (codes "# users"
        ∷ codes "ann:$2x:jobs:read,jobs:write"
        ∷ []
        ∷ codes " bob : $2y:jobs:read"
        ∷ [])
      (writer ∷ reader ∷ []) tt tt refl

-- Two users, whose keys are their hashes.
abbrev two_users : Option Authenticator
two_users = some (file_authenticate text_eq (reader ∷ writer ∷ []))

abbrev with_key : Request
with_key = record { api_key = codes "$2x"; user = none }

abbrev inner : Handler Request
inner r = reply r

abbrev as_writer : Request
as_writer = with_user with_key writer

abbrev seen : Route × Request
seen = (post_jobs, as_writer)

reached_only_example :
    ((true ≡ false)
      × (authenticated two_users with_key ≡ none)
      × (inner with_key ≡ inner as_writer))
    ⊎ ((user : User) × (authenticated two_users with_key ≡ some user)
        × (has_role jobs_write user ≡ true)
        × (inner (with_user with_key user) ≡ inner as_writer))
unfolding middleware is_empty file_authenticate text_eq require_role has_role contains role_eq
reached_only_example = reached_only two_users true jobs_write inner with_key as_writer refl refl

changes_need_write_role_example :
    (user : User) × (role : Role) × (authenticated two_users with_key ≡ some user)
    × (has_role role user ≡ true)
    × (is_write role ≡ true)
    × (seen ≡ (post_jobs, with_user with_key user))
unfolding api_handler middleware is_empty file_authenticate text_eq route_role require_role has_role
    contains role_eq
changes_need_write_role_example =
    changes_need_write_role two_users post_jobs with_key seen refl refl refl
