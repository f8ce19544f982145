-- ===== src/Result.antt =====
-- Go's `(value, error)` results. A sentinel error of the program is a constructor, an error that
-- only carries a message is `failure`, and `wrapped e` is `fmt.Errorf("...: %w", e)`.
use yafe.Prelude.{ℕ, List, Bool, true, false, Option, none, some, ◌≡◌, refl, ◌⊎◌, inl, inr}

-- The sentinel errors of internal/engine/errors.go, and the refusals of the flow parser that are built
-- from a message. Where a message names a step by its number from 1, the error carries that number.
pub data EngineError : Type 0 where
  load_read load_parsing runs_on_bootstrap step_incompatible validation_not_nil : EngineError
  step_execution output_not_produced : ℕ → EngineError
  state_initialize : EngineError
  runs_on_missing runs_on_unknown steps_missing kind_missing kind_unknown : EngineError
  duplicate_step_name output_name_missing invalid_output_type missing_output_path : EngineError
  outputs_without_name template_invalid_reference path_traversal missing_output : EngineError
  script_creation script_executable script_io script_execution : EngineError
  secret_name_missing secret_not_found secret_source_empty secret_env_not_set : EngineError
  secret_file_read duplicate_secret : EngineError
  tool_not_found tool_download tool_checksum tool_extract tool_path_required : EngineError
  tool_path_forbidden duplicate_tool tool_name_required tool_invalid_retries : EngineError
  tool_binary_not_found : EngineError
  -- the text of another error
  message : List ℕ → EngineError

pub data Error : Type 0 where
  -- an error of the operating system, and its `ErrNotExist`
  io_failure not_exist : Error
  -- `json.Unmarshal` refused the contents
  malformed : Error
  -- internal/registry/registry.go
  flow_not_found flow_exists invalid_flow_name : Error
  -- internal/queue/queue.go
  job_not_found : Error
  -- internal/scheduler/schedule.go; `unknown_flow` is its own `ErrFlowNotFound`
  schedule_not_found schedule_exists invalid_schedule_name invalid_schedule_type : Error
  invalid_expression unknown_flow : Error
  -- internal/auth/enum_generated.go
  invalid_role : Error
  -- an error that is built from a message alone
  failure : Error
  wrapped : Error → Error
  -- internal/engine: an error of its own, and `fmt.Errorf("%w: ...: %w")` with one of them in front
  of_engine : EngineError → Error
  joined : EngineError → Error → Error

pub data Result {ℓ} (A : Type ℓ) : Type ℓ where
  ok : A → Result A
  err : Error → Result A

abbrev pub is_ok {ℓ} : {A : Type ℓ} → Result A → Bool
is_ok (ok a) = true
is_ok (err e) = false

infixl 5 ◌>>=◌ ◌>>◌
abbrev pub ◌>>=◌ {ℓ κ} :
    {A : Type ℓ} {B : Type κ} (first : Result A) (next : A → Result B) → Result B
err e >>= next = err e
ok a >>= next = next a

abbrev pub ◌>>◌ {κ} : {B : Type κ} (first : Result (Unit {0})) (next : Result B) → Result B
first >> next = first >>= λ _. next

-- An error where there is no value, and one where there is.
abbrev pub expect {ℓ} : {A : Type ℓ} → Error → Option A → Result (Unit {0})
expect e none = err e
expect e (some a) = ok tt

abbrev pub forbid {ℓ} : {A : Type ℓ} → Error → Option A → Result (Unit {0})
forbid e none = ok tt
forbid e (some a) = err e

-- `if b { return nil, e }`
abbrev pub reject : Bool → EngineError → Result (Unit {0})
reject true e = err (of_engine e)
reject false e = ok tt

-- `os.IsNotExist`: unlike `errors.Is`, it does not look inside an error that wraps another.
unfoldable pub os_is_not_exist : Error → Bool
os_is_not_exist not_exist = true
os_is_not_exist _ = false

pub Result-cases {ℓ} :
    {A : Type ℓ} (r : Result A) → ((a : A) × (r ≡ ok a)) ⊎ ((e : Error) × (r ≡ err e))
Result-cases (ok a) = inl (a, refl)
Result-cases (err e) = inr (e, refl)
