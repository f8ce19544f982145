-- ===== src/Engine/Secret.antt =====
-- internal/engine/secret.go: the secrets of a flow or a step. The map of a `SecretManager` is the
-- list of its entries, in the order in which a loop over the map visits them.
pub mod Masked
use yafe.Prelude.{
  Bool, true, false, Option, none, some, ◌⊎◌, inl, inr, List, [], ◌∷◌, map, if◌then◌else◌,
}
use yafe.Text.{Text, text_eq, is_empty, trim_space}
use yafe.Text.Scan.{replace_all}
use yafe.Result.{
  Error, Result, ok, err, of_engine, joined, wrapped, secret_env_not_set, secret_file_read,
  secret_source_empty,
}
use yafe.Exec.{Exec, pure, raise, wrap, match_option, choose, ◌>>=◌, ◌>>◌}
use yafe.Engine.{SecretDeclaration}
use yafe.Engine.Host.{Host, call, join_error}

abbrev pub SecretManager : Type 0
SecretManager = List (Text × Text)

-- `m.secrets[name] = value`
unfoldable pub set_secret : Text → Text → SecretManager → SecretManager
unfolding text_eq
set_secret name value [] = (name, value) ∷ []
set_secret name value (entry ∷ secrets) =
    if text_eq entry.0 name then (name, value) ∷ secrets else entry ∷ set_secret name value secrets

unfoldable pub get_secret : Text → SecretManager → Option Text
unfolding text_eq
get_secret name [] = none
get_secret name (entry ∷ secrets) =
    if text_eq entry.0 name then some entry.1 else get_secret name secrets

-- `Names`
unfoldable pub names : SecretManager → List Text
names = map (λ (entry : Text × Text). entry.0)

abbrev pub secret_mask : Text
secret_mask = b'*' ∷ b'*' ∷ b'*' ∷ []

-- `Mask`: one replacement after the other.
unfoldable pub mask : SecretManager → Text → Text
unfolding is_empty replace_all
mask [] input = input
mask (entry ∷ secrets) input =
    mask secrets (if is_empty entry.1 then input else replace_all input entry.1 secret_mask)

module _ {W : Type 0} (h : Host W) where
  -- The file of a secret, where its variable is not set or not named.
  unfoldable pub read_secret : SecretDeclaration → Exec W Text
  unfolding is_empty trim_space
  read_secret decl = choose (is_empty decl.source.file) (raise (of_engine secret_source_empty)) (do
    content ← join_error secret_file_read (call (h.read_file decl.source.file))
    pure (trim_space content))

  unfoldable pub resolve_secret : SecretDeclaration → Exec W Text
  unfolding is_empty read_secret
  resolve_secret decl = choose (is_empty decl.source.env) (read_secret decl) (λ w.
      match_option (h.lookup_env decl.source.env w)
        (choose (is_empty decl.source.file) (raise (of_engine secret_env_not_set))
          (read_secret decl))
        pure w)

  -- `Load`
  unfoldable pub load_secrets : SecretManager → List SecretDeclaration → Exec W SecretManager
  unfolding resolve_secret set_secret
  load_secrets secrets [] = pure secrets
  load_secrets secrets (decl ∷ decls) = do
    value ← wrap (resolve_secret decl)
    load_secrets (set_secret decl.name value secrets) decls
