-- ===== src/Server/Flows/Stored.antt =====
-- The handlers of flows over the registry of internal/registry/registry.go.
use yafe.Prelude.{
  ℕ, ◌≡◌, Bool, true, false, Option, none, some, [], arith, if◌then◌else◌, not, ◌||◌,
}
use yafe.Text.{Text, trim_space, is_empty}
use yafe.Result.{Error, ok, is_ok}
use yafe.Disk.{Disk, at}
use yafe.Exec.{Exec}
use yafe.Names.{validate_flow_name}
use yafe.Registry.{FileFlowRegistry, flow_path, list, get, add, delete, rename}
use yafe.Registry.Add.{add_works, get-add}
use yafe.Registry.Rename.{rename_refines}
use yafe.Server.{answer, no_body, flow_body, errors_is}
use yafe.Server.Flows.{FlowService, handle_get_flow, handle_add_flow, handle_rename_flow}

abbrev pub registry_flows : FileFlowRegistry → FlowService (Disk Text)
registry_flows r = record {
  list = list r;
  get = get r;
  add = add r;
  delete = delete r;
  rename = rename r;
}

module _ (error_text : Error → Text) (r : FileFlowRegistry) (disk : Disk Text) where
  -- On a disk where every call works, a flow with a valid name and some content that is put is
  -- answered with 201, and a request for it then with 200, its name and the content that was put.
  pub get_after_put :
      (name content : Text)
      → disk.outcomes ≡ []
      → validate_flow_name (trim_space name) ≡ ok tt
      → is_empty name ≡ false
      → is_empty content ≡ false
      → let (added, after) =
          handle_add_flow error_text (registry_flows r) name (some content) disk in
        (added ≡ answer 201 no_body)
        × ((handle_get_flow error_text (registry_flows r) name after).0
            ≡ answer 200 (flow_body name content))
  unfolding handle_add_flow handle_get_flow
  get_after_put name content w v n c =
      ground (arith, n, c, add_works r name disk w content v, get-add r name disk w content v)

  abbrev is_valid : Text → Bool
  is_valid name = is_ok (validate_flow_name (trim_space name))

  abbrev is_there : Option Text → Bool
  is_there none = false
  is_there (some c) = true

  -- The code of the answer to a request to rename a flow.
  abbrev pub rename_code : Text → Text → ℕ
  rename_code old_name new_name =
      let flow = λ (name : Text). is_there (at disk (flow_path r (trim_space name))) in
      if is_empty old_name || is_empty new_name
      then 400
      else if not (is_valid old_name) || not (is_valid new_name)
      then 400
      else if not (flow old_name)
      then 404
      else if flow new_name
      then 409
      else 204

  -- On a disk where every call works, a request to rename a flow is answered with 400 if a name is
  -- empty or invalid, else with 404 if there is no flow of the old name, else with 409 if there is
  -- one of the new name, and else with 204.
  pub rename_answers :
      (update_references : Option (Text → Text → Exec (Disk Text) (Unit {0})))
      (old_name new_name : Text)
      → disk.outcomes ≡ []
      → (handle_rename_flow error_text
          (registry_flows r)
          update_references
          old_name
          (some new_name)
          disk).0.code
        ≡ rename_code old_name new_name
  unfolding handle_rename_flow errors_is validate_flow_name
  rename_answers update_references old_name new_name w =
      ground (arith, (rename_refines r old_name new_name disk w).0)
