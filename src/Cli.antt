-- ===== src/Cli.antt =====
-- cmd/yafe/main.go: what the commands have in common. A command ends with what it has printed and with
-- the error that it exits with, if there is one. Flags and arguments come parsed, as urfave/cli does it;
-- the terminal and the operating system are a parameter.
pub mod Jobs
pub mod Flows
pub mod Schedules
pub mod Serve
pub mod Local
use yafe.Prelude.{
  ℕ, ℤ, Bool, true, false, ◌||◌, not, Option, none, some, List, [], ◌∷◌, ◌++◌, ◌⊎◌, inl, inr,
  if◌then◌else◌,
}
use yafe.Text.{Text, codes, is_empty, text_eq, text_lt, after_first, before_first}
use yafe.Text.Paths.{join}
use yafe.Result.{Error, Result, ok, err, os_is_not_exist}
use yafe.Exec.{Exec}
use yafe.Job.{decimal}
use yafe.Output.{Bytes, Table, render}
use yafe.Client.{
  Client, ClientError, ClientJob, ClientSchedule, Fetch, success, refused, new_http_client,
  new_unix_socket_client,
}

-- `cli.Command`
pub record Command : Type 0 where
  pub args : List Text
  pub text : Text → Text
  pub flag : Text → Bool
  pub texts : Text → List Text
  pub duration : Text → ℤ
  pub is_set : Text → Bool

-- What is printed as JSON.
pub data Shown : Type 0 where
  shown_jobs : List ClientJob → Shown
  shown_job : ClientJob → Shown
  shown_flows : List Text → Shown
  shown_schedules : List ClientSchedule → Shown
  shown_schedule : ClientSchedule → Shown

-- What the commands call of package os, of time and strconv to format values, and of encoding/json.
pub record Terminal (S : Type 0) : Type 0 where
  pub getenv : Text → Text
  pub uid : ℕ
  pub home_dir : Result Text
  -- the error of `os.Stat`, if it has one
  pub stat_error : Text → S → Option Error
  pub read_file : Text → Exec S Text
  pub utf8 : Text → Bytes
  pub time_format : ℕ → Bytes
  pub itoa : ℕ → Bytes
  pub encode_json : Shown → Result Bytes

-- The errors of the commands: a message, a message that wraps an error, and an input without `=`.
pub data CliError : Type 0 where
  usage : Text → CliError
  client_failed : Text → ClientError → CliError
  call_failed : Text → Error → CliError
  invalid_input : Text → CliError
  socket_not_found : Text → CliError
  panic : CliError

pub record Ending : Type 0 where
  pub printed : Bytes
  pub failed : Option CliError

abbrev pub Action : Type 0 → Type 0
Action S = S → Ending × S

abbrev concat_lines : List Bytes → Bytes
concat_lines [] = []
concat_lines (line ∷ lines) = line ++ concat_lines lines

module _ {S : Type 0} where
  -- `cli.Exit(err, 1)`
  abbrev pub exit : CliError → Action S
  exit e s = (record { printed = []; failed = some e }, s)

  abbrev pub prints : Bytes → Action S
  prints bytes s = (record { printed = bytes; failed = none }, s)

  abbrev pub fetching : {A : Type 0} → Text → Fetch S A → (A → Action S) → Action S
  fetching message m next s = elim (m s).0 [
    | success a ↦ next a (m s).1
    | refused e ↦ exit (client_failed message e) (m s).1
  ]

  -- The first argument, and the first two, which a command asks for.
  abbrev pub with_argument : Command → Text → (Text → Action S) → Action S
  with_argument cmd message next s = elim cmd.args [
    | [] ↦ exit (usage message) s
    | first ∷ rest ↦ next first s
  ]

  abbrev pub with_two_arguments : Command → Text → (Text → Text → Action S) → Action S
  with_two_arguments cmd message next s = elim cmd.args [
    | [] ↦ exit (usage message) s
    | first ∷ rest ↦ elim rest [ [] ↦ exit (usage message) s | second ∷ more ↦ next first second s ]
  ]

  -- The lines of a table, or a panic.
  abbrev pub prints_table : Table → Action S
  prints_table table = elim (render table) [
    | none ↦ exit panic
    | some lines ↦ prints (concat_lines lines)
  ]

-- `inputs[key] = value`
unfoldable pub set_input : Text → Text → List (Text × Text) → List (Text × Text)
set_input key value [] = (key, value) ∷ []
set_input key value ((k, v) ∷ inputs) =
    if text_eq k key then (key, value) ∷ inputs else (k, v) ∷ set_input key value inputs

-- The loop over the pairs of `--input`: the map that they make, or the first one without `=`.
unfoldable pub parse_inputs : List (Text × Text) → List Text → Text ⊎ List (Text × Text)
unfolding set_input after_first before_first
parse_inputs inputs [] = inr inputs
parse_inputs inputs (pair ∷ pairs) = elim (after_first b'=' pair) [
  | none ↦ inl pair
  | some value ↦ parse_inputs (set_input (before_first b'=' pair) value inputs) pairs
]

abbrev pub with_inputs : {S : Type 0} → List Text → (List (Text × Text) → Action S) → Action S
with_inputs pairs next s = elim (parse_inputs [] pairs) [
  | inl pair ↦ exit (invalid_input pair) s
  | inr inputs ↦ next inputs s
]

-- `sort.Strings` on the keys, and the lines of the inputs in their order.
unfoldable pub insert_key : Text × Text → List (Text × Text) → List (Text × Text)
insert_key entry [] = entry ∷ []
insert_key entry (e ∷ entries) =
    if text_lt e.0 entry.0 then e ∷ insert_key entry entries else entry ∷ e ∷ entries

unfoldable pub sort_keys : List (Text × Text) → List (Text × Text)
unfolding insert_key
sort_keys [] = []
sort_keys (entry ∷ entries) = insert_key entry (sort_keys entries)

module _ {S : Type 0} (os : Terminal S) where
  abbrev pub input_lines : List (Text × Text) → Bytes
  input_lines [] = []
  input_lines ((key, value) ∷ inputs) =
      (32 ∷ 32 ∷ (os.utf8 key ++ (b':' ∷ 32 ∷ (os.utf8 value ++ (10 ∷ []))))) ++ input_lines inputs

  -- `if len(inputs) > 0 { … }`
  unfoldable pub print_inputs : List (Text × Text) → Bytes
  unfolding sort_keys
  print_inputs [] = []
  print_inputs (entry ∷ inputs) = codes "Inputs:" ++ (10 ∷ input_lines (sort_keys (entry ∷ inputs)))

  -- A value as JSON, or the error of its encoding.
  abbrev pub prints_json : Text → Shown → Action S
  prints_json message shown s = elim (os.encode_json shown) [
    | ok bytes ↦ prints bytes s
    | err e ↦ exit (call_failed message e) s
  ]

  -- `defaultSocketPath`
  unfoldable pub default_socket_path : Text
  unfolding join decimal
  default_socket_path =
      let runtime_dir = os.getenv (codes "XDG_RUNTIME_DIR") in
      join
        (join (if is_empty runtime_dir then codes "/tmp/yafe-" ++ decimal os.uid else runtime_dir)
          (codes "yafe"))
        (codes "yafe.sock")

  -- `resolveStateHome`
  unfoldable pub resolve_state_home : Text ⊎ CliError
  unfolding join
  resolve_state_home =
      let state_home = os.getenv (codes "XDG_STATE_HOME") in
      if is_empty state_home
      then elim os.home_dir [
        | ok home ↦ inl (join (join home (codes ".local")) (codes "state"))
        | err e ↦ inr (call_failed (codes "cannot determine home directory") e)
      ]
      else inl state_home

  -- `newClient`
  unfoldable pub new_client : Command → S → CliError ⊎ Client
  unfolding default_socket_path
  new_client cmd s =
      let api_key = cmd.text (codes "api-key") in
      let http_url = cmd.text (codes "http") in
      let given = cmd.text (codes "socket") in
      let socket_path = if is_empty given then default_socket_path else given in
      if not (is_empty http_url)
      then inr (new_http_client http_url api_key)
      else (elim (os.stat_error socket_path s) [
        | none ↦ inr (new_unix_socket_client socket_path api_key)
        | some e ↦
            if os_is_not_exist e
            then inl (socket_not_found socket_path)
            else inr (new_unix_socket_client socket_path api_key)
      ])

  abbrev pub with_client : Command → (Client → Action S) → Action S
  with_client cmd next s = elim (new_client cmd s) [ inl e ↦ exit e s | inr c ↦ next c s ]
