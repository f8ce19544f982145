-- ===== src/Cli/Serve/Safe.antt =====
-- The configurations that `yafe serve` starts with.
use mathlib.Core.Path.{subst}
use yafe.Prelude.{
  ◌≡◌, ◌≢◌, refl, ◌⊎◌, inl, inr, Bool, true, false, ◌&&◌, ◌||◌, not, Option, none, some, List, [],
  ◌∷◌, ◌++◌, arith, Bool-cases, if◌then◌else◌,
}
use yafe.Text.{Text, codes, is_empty}
use yafe.Text.Laws.{is_empty_iff}
use yafe.Text.Paths.{clean, join}
use yafe.Exec.{Exec}
use yafe.Job.{decimal}
use yafe.Result.{ok, Result-cases}
use yafe.Auth.{
  User, Authenticator, file_authenticate, inline_authenticate, new_inline_authenticator,
}
use yafe.Cli.{Command, Terminal, default_socket_path, resolve_state_home}
use yafe.Cli.Serve.{ServeConfig, is_missing, build_authenticator, config_with, serve_config}

clean-ne-nil : (path : Text) → is_empty (clean path) ≡ false
unfolding clean is_empty
clean-ne-nil path = ground arith

join-ne-nil : (base name : Text) → is_empty name ≡ false → is_empty (join base name) ≡ false
unfolding join
join-ne-nil base name h = ground (arith, clean-ne-nil name, clean-ne-nil (base ++ (b'/' ∷ name)))

filled : (s : Text) → is_empty s ≡ false → s ≢ []
filled s h e = ground (arith, is_empty_iff s)

Sum-cases : {A B : Type 0} (x : A ⊎ B) → ((a : A) × (x ≡ inl a)) ⊎ ((b : B) × (x ≡ inr b))
Sum-cases (inl a) = inl (a, refl)
Sum-cases (inr b) = inr (b, refl)

module _ {S : Type 0} (os : Terminal S) (load_auth_file : Text → Exec S (List User))
    (matches : Text → Text → Bool) (cmd : Command) (s : S) where
  -- Where the authenticator comes from: there is none, if neither flag gives users; or the users of the
  -- file of `--auth-file`; or the one of `--auth-user`, who then has a key.
  pub data Source : Option Authenticator → Type 0 where
    no_users : cmd.text (codes "auth-file") ≡ [] → cmd.text (codes "auth-user") ≡ [] → Source none
    users_of_file :
        (users : List User)
        → cmd.text (codes "auth-file") ≢ []
        → cmd.text (codes "auth-user") ≡ []
        → (load_auth_file (cmd.text (codes "auth-file")) s).0 ≡ ok users
        → Source (some (file_authenticate matches users))
    user_of_flags :
        (user : User)
        → cmd.text (codes "auth-file") ≡ []
        → cmd.text (codes "auth-user") ≢ []
        → cmd.text (codes "auth-key") ≢ []
        → new_inline_authenticator
            (cmd.text (codes "auth-user"))
            (cmd.text (codes "auth-key"))
            (cmd.text (codes "auth-role"))
          ≡ ok user
        → Source (some (inline_authenticate matches user))

  -- What a configuration has that the flags of a command lead to.
  pub record IsSafe (config : ServeConfig) : Type 0 where
    -- a listener that asks for keys can check them
    pub keys_checked : (config.socket_auth || config.http_auth) ≡ true → config.auth ≢ none
    pub as_asked :
        (config.socket_auth ≡ cmd.flag (codes "auth-socket"))
        × (config.http_auth ≡ cmd.flag (codes "auth-http"))
    -- a listener that is switched off has no address, and the socket has one otherwise
    pub socket_switched : is_empty config.socket_path ≡ not (cmd.flag (codes "socket"))
    pub http_switched :
        config.http_addr ≡ (if cmd.flag (codes "http") then cmd.text (codes "http-listen") else [])
    pub listens :
        ((is_empty config.socket_path && is_empty config.http_addr) ≡ true)
        → (cmd.flag (codes "http") ≡ true) × (cmd.text (codes "http-listen") ≡ [])
    -- its users come from the flags
    pub source : Source config.auth

  abbrev file : Text
  file = cmd.text (codes "auth-file")

  abbrev user : Text
  user = cmd.text (codes "auth-user")

  abbrev key : Text
  key = cmd.text (codes "auth-key")

  -- What a configuration comes from.
  record Origin (config : ServeConfig) : Type 0 where
    state_home : Text
    auth : Option Authenticator
    enabled : (not (cmd.flag (codes "socket")) && not (cmd.flag (codes "http"))) ≡ false
    built : (build_authenticator os load_auth_file matches cmd s).0 ≡ inr auth
    checked :
        ((cmd.flag (codes "auth-socket") || cmd.flag (codes "auth-http")) && is_missing auth)
        ≡ false
    same : config ≡ config_with os load_auth_file matches cmd state_home auth

  origin :
      (config : ServeConfig)
      → (serve_config os load_auth_file matches cmd s).0 ≡ inr config
      → Origin config
  unfolding serve_config
  origin config h =
      elim (Bool-cases (not (cmd.flag (codes "socket")) && not (cmd.flag (codes "http")))) [
        | inl off ↦ absurd (ground (arith, off))
        | inr on ↦ elim (Sum-cases (resolve_state_home os)) [
          | inr (e, failed) ↦ absurd (ground (arith, on, failed))
          | inl (home, found) ↦
              elim (Sum-cases (build_authenticator os load_auth_file matches cmd s).0) [
                | inl (e, failed) ↦ absurd (ground (arith, on, found, failed))
                | inr (auth, built) ↦ record {
                  state_home = home;
                  auth = auth;
                  enabled = on;
                  built = built;
                  checked = ground (arith, on, found, built);
                  same = ground (arith, on, found, built);
                }
              ]
        ]
      ]

  sourced :
      (auth : Option Authenticator)
      → (build_authenticator os load_auth_file matches cmd s).0 ≡ inr auth
      → Source auth
  unfolding build_authenticator
  sourced auth h = elim (Bool-cases (is_empty file)) [
    | inl no_file ↦ elim (Bool-cases (is_empty user)) [
      | inl no_user ↦
          subst Source (ground (arith, no_file, no_user))
            (no_users ((is_empty_iff file).0 no_file) ((is_empty_iff user).0 no_user))
      | inr a_user ↦
          elim (Result-cases (new_inline_authenticator user key (cmd.text (codes "auth-role")))) [
            | inl (made, e) ↦ subst Source (ground (arith, no_file, a_user, e)) (
                user_of_flags made ((is_empty_iff file).0 no_file) (filled user a_user)
                  (filled key (ground (arith, no_file, a_user, e))) e)
            | inr (error, e) ↦ absurd (ground (arith, no_file, a_user, e))
          ]
    ]
    | inr a_file ↦ elim (Result-cases (load_auth_file file s).0) [
      | inl (users, e) ↦ subst Source (ground (arith, a_file, e)) (
          users_of_file users (filled file a_file)
            ((is_empty_iff user).0 (ground (arith, a_file, e))) e)
      | inr (error, e) ↦ absurd (ground (arith, a_file, e))
    ]
  ]

  socket-ne-nil : is_empty (default_socket_path os) ≡ false
  unfolding default_socket_path is_empty
  socket-ne-nil =
      join-ne-nil
        (join
          (if is_empty (os.getenv (codes "XDG_RUNTIME_DIR"))
            then codes "/tmp/yafe-" ++ decimal os.uid
            else os.getenv (codes "XDG_RUNTIME_DIR"))
          (codes "yafe"))
        (codes "yafe.sock") refl

  config_with-IsSafe :
      (home : Text) (auth : Option Authenticator)
      → (not (cmd.flag (codes "socket")) && not (cmd.flag (codes "http"))) ≡ false
      → ((cmd.flag (codes "auth-socket") || cmd.flag (codes "auth-http")) && is_missing auth)
        ≡ false
      → Source auth
      → IsSafe (config_with os load_auth_file matches cmd home auth)
  unfolding config_with is_empty
  config_with-IsSafe home auth on checked from = record {
    keys_checked = λ asked missing. ground arith;
    as_asked = (refl, refl);
    socket_switched = ground (arith, socket-ne-nil);
    http_switched = refl;
    listens =
        λ silent. ground (arith, socket-ne-nil, is_empty_iff (cmd.text (codes "http-listen")));
    source = from;
  }

  -- Whatever the flags are: a configuration that `yafe serve` starts with asks for keys on the listeners
  -- that the flags say, and has an authenticator if it asks for any; it has an address for the socket
  -- exactly if the flag for the socket is on, and for HTTP the one of its flag if that is on, and
  -- otherwise none; without an address for either, HTTP is on and its address was given as empty. The
  -- authenticator has the users that the file of `--auth-file` was read as, if that flag is given and
  -- `--auth-user` is not; the user that `--auth-user` and the other flags make, if that is given with a
  -- key and `--auth-file` is not; and there is none, if neither is given.
  pub serve_config-IsSafe :
      (config : ServeConfig)
      → (serve_config os load_auth_file matches cmd s).0 ≡ inr config
      → IsSafe config
  serve_config-IsSafe config h =
      let o = origin config h in
      rw o.same
        (config_with-IsSafe o.state_home o.auth o.enabled o.checked (sourced o.auth o.built))
