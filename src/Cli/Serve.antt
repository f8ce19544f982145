-- ===== src/Cli/Serve.antt =====
-- cmd/yafe/main.go: `yafe serve`. What builds and runs the parts of the
-- daemon is a parameter.
pub mod Safe
use yafe.Prelude.{
  ℤ, Bool, true, false, ◌&&◌, ◌||◌, not, Option, none, some, List, [], ◌∷◌, ◌++◌, ◌⊎◌, inl, inr,
  if◌then◌else◌,
}
use yafe.Text.{Text, codes, is_empty, trim_space}
use yafe.Text.Paths.{join}
use yafe.Result.{Error, Result, ok, err}
use yafe.Exec.{Exec}
use yafe.Auth.{
  User, Authenticator, file_authenticate, inline_authenticate, new_inline_authenticator,
}
use yafe.Server.Headers.{SecurityHeadersConfig}
use yafe.Output.{Bytes}
use yafe.Cli.{
  Command, Terminal, Action, CliError, usage, call_failed, exit, prints, with_argument,
  default_socket_path, resolve_state_home,
}

-- `server.Config`, with the directories and the periods that the other parts are given.
pub record ServeConfig : Type 0 where
  pub socket_path : Text
  pub http_addr : Text
  pub socket_auth : Bool
  pub http_auth : Bool
  pub auth : Option Authenticator
  pub security_headers : SecurityHeadersConfig
  pub queue_dir : Text
  pub flows_dir : Text
  pub schedules_dir : Text
  pub cleanup_done : ℤ
  pub cleanup_failed : ℤ
  pub poll_interval : ℤ

abbrev pub Configured : Type 0
Configured = CliError ⊎ ServeConfig

abbrev or_default : Text → Text → Text
or_default given default = if is_empty given then default else given

-- Building, starting and stopping the parts: `NewFileFlowRegistry`, `NewFileQueue`, `NewFileStore`,
-- `Scheduler.Start`, the start of the worker, `Server.Run`, `Scheduler.Stop`, and the wait for the worker.
pub record Daemon (S : Type 0) : Type 0 where
  pub new_registry : Text → Exec S (Unit {0})
  pub new_queue : Text → ℤ → ℤ → Exec S (Unit {0})
  pub new_store : Text → Exec S (Unit {0})
  pub start_scheduler : Exec S (Unit {0})
  pub start_worker : ℤ → S → S
  pub run_server : ServeConfig → Exec S (Unit {0})
  pub stop_scheduler : S → S
  pub wait_for_worker : S → S

abbrev pub is_missing : Option Authenticator → Bool
is_missing none = true
is_missing (some auth) = false

-- `NewFileAuthenticator` on the files of the state, and bcrypt's comparison.
module _ {S : Type 0} (os : Terminal S) (load_auth_file : Text → Exec S (List User))
    (matches : Text → Text → Bool) (cmd : Command) where
  -- The authenticator that the flags ask for.
  unfoldable pub build_authenticator : S → (CliError ⊎ Option Authenticator) × S
  build_authenticator s =
      let auth_user = cmd.text (codes "auth-user") in
      let auth_key = cmd.text (codes "auth-key") in
      let auth_file = cmd.text (codes "auth-file") in
      let (loaded, after) = load_auth_file auth_file s in
      let from_file : CliError ⊎ Option Authenticator = elim loaded [
        | ok users ↦ inr (some (file_authenticate matches users))
        | err e ↦ inl (call_failed (codes "failed to load auth file") e)
      ] in
      let inline : CliError ⊎ Option Authenticator =
        if is_empty auth_key
        then inl (usage (codes "--auth-key required with --auth-user"))
        else (elim (new_inline_authenticator auth_user auth_key (cmd.text (codes "auth-role"))) [
          | ok user ↦ inr (some (inline_authenticate matches user))
          | err e ↦ inl (call_failed (codes "failed to create auth") e)
        ]) in
      if not (is_empty auth_file) && not (is_empty auth_user)
      then (inl (usage (codes "cannot use both --auth-file and --auth-user")), s)
      else if not (is_empty auth_file)
      then (from_file, after)
      else if not (is_empty auth_user)
      then (inline, s)
      else (inr none, s)

  -- The configuration with an authenticator and the home of the state.
  unfoldable pub config_with : Text → Option Authenticator → ServeConfig
  unfolding default_socket_path
  config_with state_home auth = record {
    socket_path =
        if cmd.flag (codes "socket")
        then or_default (cmd.text (codes "socket-file")) (default_socket_path os)
        else [];
    http_addr = if cmd.flag (codes "http") then cmd.text (codes "http-listen") else [];
    socket_auth = cmd.flag (codes "auth-socket");
    http_auth = cmd.flag (codes "auth-http");
    auth = auth;
    security_headers = record {
      csp_enabled = cmd.flag (codes "sh-csp-enabled");
      csp_value = cmd.text (codes "sh-csp-value");
      hsts_enabled = cmd.flag (codes "sh-hsts-enabled");
      hsts_max_age = cmd.duration (codes "sh-hsts-max-age");
      hsts_include_sub_domains = cmd.flag (codes "sh-hsts-include-sub-domains");
      hsts_preload = cmd.flag (codes "sh-hsts-preload");
    };
    queue_dir =
        or_default (cmd.text (codes "queue-dir"))
          (join (join state_home (codes "yafe")) (codes "queue"));
    flows_dir =
        or_default (cmd.text (codes "flows-dir"))
          (join (join state_home (codes "yafe")) (codes "flows"));
    schedules_dir =
        or_default (cmd.text (codes "schedules-dir"))
          (join (join state_home (codes "yafe")) (codes "schedules"));
    cleanup_done = cmd.duration (codes "cleanup-done");
    cleanup_failed = cmd.duration (codes "cleanup-failed");
    poll_interval = cmd.duration (codes "poll-interval");
  }

  -- What the flags come to, before anything of the daemon is made.
  unfoldable pub serve_config : S → Configured × S
  unfolding build_authenticator config_with resolve_state_home
  serve_config s =
      if not (cmd.flag (codes "socket")) && not (cmd.flag (codes "http"))
      then (inl (usage (codes "at least one listener must be enabled (--socket or --http)")), s)
      else (elim (resolve_state_home os) [
        | inr e ↦ (inl e, s)
        | inl state_home ↦ elim (build_authenticator s).0 [
          | inl e ↦ (inl e, (build_authenticator s).1)
          | inr auth ↦ (
            if (cmd.flag (codes "auth-socket") || cmd.flag (codes "auth-http")) && is_missing auth
                then inl (
                    usage (
                      codes
                        "auth required but no authenticator configured (use --auth-file or --auth-user)"))
                else inr (config_with state_home auth),
            (build_authenticator s).1,
          )
        ]
      ])

  -- A call of the daemon, with the message of its error.
  abbrev step : Text → Exec S (Unit {0}) → Action S → Action S
  step message m next s = elim (m s).0 [
    | err e ↦ exit (call_failed message e) (m s).1
    | ok done ↦ next (m s).1
  ]

  -- `serveCmd`; the worker runs beside the server until that ends.
  unfoldable pub serve : Daemon S → Action S
  unfolding serve_config
  serve daemon s = elim (serve_config s).0 [
    | inl e ↦ exit e (serve_config s).1
    | inr config ↦
        step (codes "failed to initialize registry") (daemon.new_registry config.flows_dir)
          (step (codes "failed to initialize queue")
            (daemon.new_queue config.queue_dir config.cleanup_done config.cleanup_failed)
            (step (codes "failed to initialize scheduler store")
              (daemon.new_store config.schedules_dir)
              (step (codes "failed to start scheduler") daemon.start_scheduler λ started.
                step (codes "server error") (daemon.run_server config)
                  (λ ended. prints [] (daemon.wait_for_worker (daemon.stop_scheduler ended)))
                  (daemon.start_worker config.poll_interval started))))
          (serve_config s).1
  ]
