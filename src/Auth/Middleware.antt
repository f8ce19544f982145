-- ===== src/Auth/Middleware.antt =====
-- internal/auth/middleware.go: a handler answers a request, or passes it on to the one behind it.
use yafe.Prelude.{ℕ, ◌≡◌, ◌⊎◌, Bool, true, false, Option, none, some, arith, if◌then◌else◌}
use yafe.Text.{Text, codes, is_empty}
use yafe.Auth.{Role, User, Authenticator, has_role}

-- What the middleware reads of a request: the header `X-Api-Key`, which is empty if it is missing,
-- and the user in the context.
pub record Request : Type 0 where
  pub api_key : Text
  pub user : Option User

-- An error that is written, or what the inner handler does.
pub data Reply (R : Type 0) : Type 0 where
  error_reply : ℕ → Text → Reply R
  reply : R → Reply R

abbrev pub Handler : Type 0 → Type 0
Handler R = Request → Reply R

abbrev pub with_user : Request → User → Request
with_user r user = record r { user = some user }

module _ {R : Type 0} where
  unfoldable pub middleware : Option Authenticator → Bool → Handler R → Handler R
  middleware none required next r =
      if required then error_reply 401 (codes "authentication required") else next r
  middleware (some auth) required next r =
      if is_empty r.api_key
      then if required then error_reply 401 (codes "authentication required") else next r
      else elim (auth r.api_key) [
        | none ↦ error_reply 401 (codes "invalid API key")
        | some user ↦ next (with_user r user)
      ]

  unfoldable pub require_role : Role → Handler R → Handler R
  require_role role next r = elim r.user [
    | none ↦ next r
    | some user ↦
        if has_role role user then next r else error_reply 403 (codes "insufficient permissions")
  ]

-- The user of a request that an authenticator knows, if it has a key.
abbrev pub authenticated : Option Authenticator → Request → Option User
authenticated none r = none
authenticated (some auth) r = if is_empty r.api_key then none else auth r.api_key

-- A request that comes without a user gets an answer of the handler behind both only in two ways:
-- nothing was asked of it, since authentication is not required and there is no key or no
-- authenticator; or its key belongs to the user that the handler then sees, who has the role.
pub reached_only :
    {R : Type 0} (auth : Option Authenticator) (required : Bool) (role : Role) (next : Handler R)
    (r : Request) (answered : R)
    → r.user ≡ none
    → middleware auth required (require_role role next) r ≡ reply answered
    → ((required ≡ false) × (authenticated auth r ≡ none) × (next r ≡ reply answered))
      ⊎ ((user : User) × (authenticated auth r ≡ some user)
          × (has_role role user ≡ true)
          × (next (with_user r user) ≡ reply answered))
unfolding middleware require_role
reached_only none required role next r answered h k = ground arith
reached_only (some auth) required role next r answered h k = ground arith
