-- ===== src/Cli/Local.antt =====
-- cmd/yafe/main.go: `yafe run` and `yafe auth hash`, which need no daemon.
use yafe.Prelude.{not, some, [], ◌∷◌, ◌++◌, if◌then◌else◌}
use yafe.Text.{Text, codes, is_empty, trim_space}
use yafe.Result.{Result, ok, err}
use yafe.Exec.{Exec}
use yafe.Output.{Bytes}
use yafe.Cli.{Command, Action, usage, call_failed, exit, prints, with_argument}

-- `runCmd`; the engine loads a flow from a file and runs it.
unfoldable pub run_flow_file :
    {S F : Type 0} → (Text → Exec S F) → (F → Exec S (Unit {0})) → Command → Action S
run_flow_file load run cmd = with_argument cmd (codes "args required - try 'run help'") λ path s.
    elim (load path s).0 [
      | err e ↦ exit (call_failed (codes "run failed") e) (load path s).1
      | ok flow ↦ elim (run flow (load path s).1).0 [
        | err e ↦ exit (call_failed (codes "run failed") e) (run flow (load path s).1).1
        | ok done ↦ prints [] (run flow (load path s).1).1
      ]
    ]

-- `authHashCmd`; a password from the terminal, a line from the input, and bcrypt are parameters. The
-- prompt is printed where the key is asked for.
module _ {S : Type 0} (read_password read_line : Exec S Text) (hash_key : Text → Result Bytes) where
  abbrev prompted : Bytes → Bytes
  prompted bytes = codes "Enter API key: " ++ (10 ∷ bytes)

  abbrev hashed : (Bytes → Bytes) → Text → Action S
  hashed with_prompt key s =
      if is_empty key
      then (
        record {
          printed = with_prompt [];
          failed = some (usage (codes "API key cannot be empty"));
        },
        s,
      )
      else (elim (hash_key key) [
        | err e ↦ (
          record {
            printed = with_prompt [];
            failed = some (call_failed (codes "failed to hash key") e);
          },
          s,
        )
        | ok hash ↦ prints (with_prompt (hash ++ (10 ∷ []))) s
      ])

  unfoldable pub auth_hash : Command → Action S
  unfolding trim_space
  auth_hash cmd s =
      if not (is_empty (cmd.text (codes "key")))
      then hashed (λ bytes. bytes) (cmd.text (codes "key")) s
      else (elim (read_password s).0 [
        | ok key ↦ hashed prompted key (read_password s).1
        | err e ↦ elim (read_line (read_password s).1).0 [
          | ok line ↦ hashed prompted (trim_space line) (read_line (read_password s).1).1
          | err e' ↦ (
            record {
              printed = prompted [];
              failed = some (call_failed (codes "failed to read key") e');
            },
            (read_line (read_password s).1).1,
          )
        ]
      ])
