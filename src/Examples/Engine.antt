-- ===== src/Examples/Engine.antt =====
-- A flow of two steps, the second of which refers to an output of the first, and a machine on which
-- every call works and one command can be run.
use yafe.Prelude.{ℕ, zero, suc, pos, ◌≡◌, refl, inl, inr, none, some, [], ◌∷◌, ◌++◌, arith}
use yafe.Text.{Text, codes}
use yafe.Result.{Result, ok, err, joined, step_execution, io_failure}
use yafe.Engine.{StepOutput, ShellStep, host, Flow}
use yafe.Engine.Host.{Host, System, broken}
use yafe.Engine.Template.{TemplateRef, parse_templates}
use yafe.Engine.Template.Exact.{BeginsWithOutput}
use yafe.Engine.Template.Found.{parse_templates_exact}
use yafe.Engine.Validate.{validate_flow}
use yafe.Engine.Validate.WellFormed.{WellFormed, validate_flow_iff}
use yafe.Engine.Parse.{RawFlow, load_bytes}
use yafe.Engine.Parse.Parsed.{IsFlowOf, load_bytes_lem}
use yafe.Engine.Secret.{mask}
use yafe.Engine.Secret.Masked.{Occurs, mask_hides}
use yafe.Engine.State.{StateManager, new_state, initialize, find_variable}
use yafe.Engine.State.Variables.{written_variable}
use yafe.Engine.Tool.{ToolHost, download}
use yafe.Engine.Tool.Download.{Tried, download-Tried}
use yafe.Engine.Resolve.{resolve_outputs}
use yafe.Engine.Run.{run_step, run_steps, run}
use yafe.Engine.Run.References.{references_resolve}
use yafe.Engine.Run.Order.{stops_at_failure}
use yafe.Engine.Run.Cleaned.{run_cleans_up}

abbrev works : {A : Type 0} → A → System ℕ A
works a w = (inr a, w)

-- The number of commands that were run is the machine.
abbrev works_well : ℕ → Result (Unit {0}) × ℕ
works_well w = (ok tt, w)

abbrev toy : Host ℕ
toy = record {
  temp_dir = codes "/tmp";
  pid = codes "7";
  environ = λ w. codes "PATH=/bin" ∷ [];
  lookup_env = λ name w. none;
  run_id = λ w. (codes "0a", w);
  read_file = λ path. works (codes "s3");
  mkdir_all = λ path. works tt;
  create_file = λ path. works tt;
  open_lines = λ path. works (inr (codes "version=1.2" ∷ []));
  stat = λ path. works tt;
  remove_all = λ path. works tt;
  remove = λ path. works tt;
  chmod = λ path. works tt;
  create_temp = λ pattern. works pattern;
  write_string = λ path text. works tt;
  sync = λ path. works tt;
  context_error = λ w. elim w [ zero ↦ none | suc n ↦ some broken ];
  run_command = λ command w. (inr tt, suc w);
  look_path = λ name. works name;
  error_text = λ e. codes "error";
  to_upper = λ s. s;
}

abbrev version_output : StepOutput
version_output = record { name = codes "version"; type = codes "variable"; path = [] }

abbrev build_step : ShellStep
build_step = record {
  name = codes "build";
  cmd = codes "make";
  shell = codes "bash";
  env = [];
  outputs = version_output ∷ [];
  secrets = [];
}

abbrev tag_step : ShellStep
tag_step = record {
  name = [];
  cmd = codes "tag ${{ steps.build.outputs.version }}";
  shell = codes "bash";
  env = [];
  outputs = [];
  secrets = [];
}

abbrev sample : Flow
sample = record {
  state_dir = codes "/work";
  tools = [];
  secrets = [];
  runs_on = some host;
  steps = build_step ∷ tag_step ∷ [];
}

abbrev version_ref : TemplateRef
version_ref = record {
  raw = codes "${{ steps.build.outputs.version }}";
  step_name = codes "build";
  output_name = codes "version";
}

parse_templates_exact_example :
    (front : Text) × (t : Text) × (rest : Text) × (tag_step.cmd ≡ front ++ t)
    × BeginsWithOutput t version_ref rest
unfolding parse_templates
parse_templates_exact_example = ((parse_templates_exact tag_step.cmd).0 version_ref).0 (inl refl)

validate_flow_iff_example : WellFormed sample
unfolding validate_flow
validate_flow_iff_example = (validate_flow_iff sample).0 refl

abbrev begun : StateManager
begun = record {
  base_dir = codes "/work";
  run_id = codes "0a";
  outputs = [];
  inputs = [];
  tools_dir = none;
}

abbrev built : StateManager
built = record begun {
  outputs = record { step = codes "build"; output = codes "version"; value = codes "1.2" } ∷ [];
}

references_resolve_example :
    (cmd : Text) × (resolve_outputs built (parse_templates tag_step.cmd) tag_step.cmd ≡ ok cmd)
unfolding run_steps validate_flow
references_resolve_example =
    references_resolve toy sample host [] (build_step ∷ []) tag_step [] begun built 0 refl refl refl

stops_at_failure_example :
    run_steps toy host [] 1 (build_step ∷ tag_step ∷ []) begun 0
    ≡ (err (joined (step_execution 2) io_failure), 1)
unfolding run_steps run_step
stops_at_failure_example =
    stops_at_failure toy host [] (build_step ∷ []) tag_step [] 1 begun built 0 1 1
      (joined (step_execution 2) io_failure) refl refl

run_cleans_up_example :
    (w1 : ℕ) × ((run toy (λ dir tools. works_well) (some sample) none 0).1
      ≡ (toy.remove_all (codes "/work") w1).1)
unfolding new_state initialize
run_cleans_up_example = (run_cleans_up toy (λ dir tools. works_well) host sample none 0 refl).0 refl

mask_hides_example : ¬ Occurs (codes "s3") (mask ((codes "key", codes "s3") ∷ []) (codes "is s3s3"))
mask_hides_example =
    mask_hides ((codes "key", codes "s3") ∷ []) (codes "is s3s3") (codes "key") (codes "s3")
      (inl refl) (ground arith) (ground arith)

written_variable_example :
    find_variable (codes "version") (codes "version=1" ∷ codes "version=1.2" ∷ codes "# end" ∷ [])
    ≡ some (codes "1.2")
unfolding find_variable
written_variable_example =
    written_variable (codes "version=1" ∷ []) (codes "# end" ∷ []) (codes "version") (codes "1.2")
      (ground arith) refl refl refl

abbrev raw_sample : RawFlow
raw_sample = record {
  state_dir = [];
  tools = record { name = codes "git"; url = []; path = []; sha256 = []; retries = none } ∷ [];
  secrets = [];
  runs_on = codes "host";
  steps =
      record {
        kind = codes "shell";
        name = [];
        cmd = codes "git pull";
        shell = [];
        env = [];
        outputs = [];
        secrets = [];
      }
      ∷ [];
}

abbrev loaded_sample : Flow
loaded_sample = record {
  state_dir = [];
  tools = record { name = codes "git"; url = []; path = []; sha256 = []; retries = pos 1 } ∷ [];
  secrets = [];
  runs_on = some host;
  steps =
      record {
        name = [];
        cmd = codes "git pull";
        shell = codes "bash";
        env = [];
        outputs = [];
        secrets = [];
      }
      ∷ [];
}

load_bytes_lem_example :
    ((raw : RawFlow) × (ok raw_sample ≡ ok raw) × IsFlowOf raw loaded_sample)
    × WellFormed loaded_sample
unfolding load_bytes
load_bytes_lem_example = load_bytes_lem (λ (c : ℕ). ok raw_sample) 0 loaded_sample refl

-- A server that fails on the first request.
abbrev tool_toy : ToolHost ℕ
tool_toy = record {
  http_get = λ url w. (elim w [ zero ↦ inl broken | suc n ↦ inr (200, url) ], suc w);
  copy = λ body dest. works tt;
  copy_limited = λ limit body dest. works tt;
  sha256_hex = λ path. works [];
  open_tar = λ format path. works [];
  open_zip = λ path. works [];
  open_zip_file = λ name. works name;
  write_file = λ path content. works tt;
  encode_meta = λ meta. [];
  decode_meta = λ content. none;
}

download-Tried_example :
    Tried toy tool_toy
      (codes "u")
      (codes "d")
      2
      0
      (download toy tool_toy (codes "u") (codes "d") none 3 0)
download-Tried_example = download-Tried toy tool_toy (codes "u") (codes "d") 2 none 0
