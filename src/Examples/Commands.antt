-- ===== src/Examples/Commands.antt =====
-- Witnesses for the commands.
use yafe.Prelude.{ℕ, pos, ◌≡◌, refl, true, false, none, some, List, [], ◌∷◌, ◌||◌, if◌then◌else◌}
use yafe.Text.{
  Text, codes, text_eq, is_empty, trim_space, split, has_prefix, after_first, before_first,
}
use yafe.Text.Paths.{join, clean}
use yafe.Result.{ok, not_exist}
use yafe.Exec.{Exec, raise}
use yafe.Disk.{working, at}
use yafe.Job.{pending, job_filename}
use yafe.Queue.{job_path}
use yafe.Queue.Enqueue.{new_job}
use yafe.Cli.{Command, Terminal, new_client, parse_inputs, set_input, resolve_state_home}
use yafe.Names.{validate_flow_name, matches_name}
use yafe.Auth.{
  User, jobs_write, inline_authenticate, new_inline_authenticator, parse_roles, file_authenticate,
  has_role, contains, role_eq, user_of, parse_parts, parse_role,
}
use yafe.Server.Jobs.Stored.{enqueue_code}
use yafe.Server.Serve.{route_pattern}
use yafe.Cli.Serve.{serve_config, config_with, build_authenticator}
use yafe.Cli.Serve.Safe.{IsSafe, serve_config-IsSafe}
use yafe.Cli.Jobs.Stored.{enqueued, enqueue_stored}
use yafe.Examples.{jobs_queue, two_jobs}
use yafe.Examples.Clients.{
  a_library, a_server_library, agreed, a_server, a_client, a_user, jobs_url,
}

abbrev a_terminal : {S : Type 0} → Terminal S
a_terminal = record {
  getenv = λ name. [];
  uid = 1000;
  home_dir = ok (codes "/home/ann");
  stat_error = λ path s. none;
  read_file = λ path. raise not_exist;
  utf8 = λ s. s;
  time_format = λ t. [];
  itoa = λ n. [];
  encode_json = λ shown. ok [];
}

abbrev enqueue_command : Command
enqueue_command = record {
  args = codes "backup" ∷ [];
  text = λ name.
      if text_eq name (codes "http")
      then codes "http://localhost:8080"
      else if text_eq name (codes "api-key")
      then codes "k"
      else [];
  flag = λ name. false;
  texts = λ name. codes "day=mon" ∷ codes "day=tue=x" ∷ [];
  duration = λ name. pos 0;
  is_set = λ name. false;
}

abbrev day_input : List (Text × Text)
day_input = (codes "day", codes "tue=x") ∷ []

enqueued_code :
    enqueue_code jobs_queue
      (λ c. [])
      (λ name. true)
      30
      (codes "c3")
      (λ e. codes "error")
      (record { flow = codes "backup"; inputs = day_input })
      (working two_jobs)
    ≡ 202
unfolding is_empty validate_flow_name trim_space matches_name
enqueued_code = refl

enqueue_stored_example :
    at
      (enqueued a_terminal a_library a_server_library jobs_queue
        (λ c. [])
        (λ name. true)
        30
        (codes "c3")
        a_server
        enqueue_command
        (codes "backup")
        day_input
        (working two_jobs)).1
      (job_path jobs_queue pending
        (job_filename (new_job 30 (codes "c3") (codes "backup") day_input)))
    ≡ some (some (new_job 30 (codes "c3") (codes "backup") day_input))
unfolding is_empty text_eq new_client parse_inputs set_input after_first before_first route_pattern
    file_authenticate has_role contains role_eq
enqueue_stored_example =
    ((enqueue_stored a_terminal a_library a_server_library jobs_queue (λ c. []) (λ name. true) 30
        (codes "c3") a_server enqueue_command (codes "backup") day_input (working two_jobs) []
        a_client a_user jobs_url agreed refl refl refl refl (refl, refl) refl refl refl).0
      enqueued_code).1

-- HTTP alone, with a user of the flags.
abbrev serve_command : Command
serve_command = record {
  args = [];
  text = λ name.
      if text_eq name (codes "auth-role")
      then codes "jobs:write"
      else if text_eq name (codes "auth-user")
      then codes "ann"
      else if text_eq name (codes "auth-key")
      then codes "$2y"
      else if text_eq name (codes "http-listen")
      then codes "127.0.0.1:8080"
      else [];
  flag = λ name. text_eq name (codes "http") || text_eq name (codes "auth-http");
  texts = λ name. [];
  duration = λ name. pos 0;
  is_set = λ name. false;
}

abbrev no_users : Text → Exec ℕ (List User)
no_users path count = (ok [], count)

abbrev ann : User
ann = record { name = codes "ann"; hash = codes "$2y"; roles = jobs_write ∷ [] }

serve_config-IsSafe_example : IsSafe a_terminal no_users text_eq serve_command 0 (
    config_with a_terminal no_users text_eq serve_command
      (codes "/home/ann/.local/state")
      (some (inline_authenticate text_eq ann)))
unfolding serve_config build_authenticator resolve_state_home join clean new_inline_authenticator
    user_of parse_roles is_empty parse_parts split parse_role text_eq trim_space has_prefix contains
serve_config-IsSafe_example =
    serve_config-IsSafe a_terminal no_users text_eq serve_command 0
      (config_with a_terminal no_users text_eq serve_command (codes "/home/ann/.local/state")
        (some (inline_authenticate text_eq ann)))
      refl
