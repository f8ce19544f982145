-- ===== src/Examples/Flows.antt =====
-- Witnesses for the registry and the handlers of flows.
use yafe.Prelude.{◌≡◌, ◌≢◌, ◌↔◌, refl, none, some, List, [], ◌∷◌, arith, All}
use yafe.Text.{Text, codes, trim_space, text_eq, is_empty}
use yafe.Result.{ok, err, io_failure, wrapped, flow_not_found}
use yafe.Disk.{put, FilePath, Disk, works, fails, working, at, find, path_eq, replace_file}
use yafe.Names.{validate_flow_name, matches_name}
use yafe.Names.Safe.{valid_flow_name_iff, SafeChar}
use yafe.Registry.{FileFlowRegistry, flow_path, add, get, delete, rename}
use yafe.Registry.Rename.{rename_atomic, rename_refines}
use yafe.Registry.Add.{add_atomic, get-add, delete_works}
use yafe.Server.{answer, no_body, flow_body}
use yafe.Server.Flows.{handle_add_flow, handle_get_flow, handle_rename_flow}
use yafe.Server.Flows.Stored.{registry_flows, get_after_put, rename_answers}

abbrev flows_dir : FileFlowRegistry
flows_dir = record { dir = codes "flows" }

abbrev two_flows : List (FilePath × Text)
two_flows =
    (flow_path flows_dir (codes "backup"), codes "tar")
    ∷ (flow_path flows_dir (codes "report"), codes "mail")
    ∷ []

backup_is_valid : validate_flow_name (trim_space (codes " backup")) ≡ ok tt
unfolding validate_flow_name trim_space is_empty matches_name
backup_is_valid = refl

names_differ : trim_space (codes "backup") ≢ trim_space (codes "nightly")
unfolding trim_space
names_differ e = ground (arith, e)

-- The rename into place, which is the fifth call, fails.
abbrev failing : Disk Text
failing = record { files = two_flows; outcomes = works ∷ works ∷ works ∷ works ∷ fails ∷ [] }

rename_atomic_example :
    let after = (rename flows_dir (codes "backup") (codes "nightly") failing).1 in
    (at after (flow_path flows_dir (trim_space (codes "backup")))
      ≡ at failing (flow_path flows_dir (trim_space (codes "backup"))))
    × (at after (flow_path flows_dir (trim_space (codes "nightly")))
        ≡ at failing (flow_path flows_dir (trim_space (codes "nightly"))))
unfolding rename validate_flow_name is_empty trim_space matches_name find path_eq text_eq
    replace_file
rename_atomic_example =
    (rename_atomic flows_dir (codes "backup") (codes "nightly") failing names_differ).1
      (wrapped io_failure) refl

rename_refines_example :
    (rename flows_dir (codes "backup") (codes "nightly") (working two_flows)).0 ≡ ok tt
unfolding find validate_flow_name is_empty trim_space matches_name path_eq text_eq
rename_refines_example =
    (rename_refines flows_dir (codes "backup") (codes "nightly") (working two_flows) refl).0

add_atomic_example :
    at
      (add flows_dir (codes "nightly") (codes "sync") (working two_flows)).1
      (flow_path flows_dir (trim_space (codes "nightly")))
    ≡ some (codes "sync")
unfolding add validate_flow_name is_empty trim_space matches_name replace_file find put path_eq
    text_eq
add_atomic_example =
    (add_atomic flows_dir (codes "nightly") (working two_flows) (codes "sync")).0 refl

get-add_example :
    (get flows_dir
      (codes " backup")
      (add flows_dir (codes " backup") (codes "zip") (working two_flows)).1).0
    ≡ ok (codes "zip")
get-add_example =
    get-add flows_dir (codes " backup") (working two_flows) refl (codes "zip") backup_is_valid

delete_works_example :
    (delete flows_dir (codes "nightly") (working two_flows)).0 ≡ err flow_not_found
unfolding find validate_flow_name is_empty trim_space matches_name path_eq text_eq
delete_works_example = (delete_works flows_dir (codes "nightly") (working two_flows) refl).0

valid_flow_name_iff_example :
    (validate_flow_name (codes "a-1") ≡ ok tt)
    ↔ ((trim_space (codes "a-1") ≢ []) × All SafeChar (trim_space (codes "a-1")))
valid_flow_name_iff_example = valid_flow_name_iff (codes "a-1")

get_after_put_example :
    let (added, after) =
      handle_add_flow
        (λ e. [])
        (registry_flows flows_dir)
        (codes " backup")
        (some (codes "zip"))
        (working two_flows) in
    (added ≡ answer 201 no_body)
    × ((handle_get_flow (λ e. []) (registry_flows flows_dir) (codes " backup") after).0
        ≡ answer 200 (flow_body (codes " backup") (codes "zip")))
unfolding is_empty
get_after_put_example =
    get_after_put (λ e. []) flows_dir (working two_flows) (codes " backup") (codes "zip") refl
      backup_is_valid refl refl

rename_answers_example :
    (handle_rename_flow
      (λ e. [])
      (registry_flows flows_dir)
      none
      (codes "backup")
      (some (codes "report"))
      (working two_flows)).0.code
    ≡ 409
unfolding find is_empty validate_flow_name trim_space matches_name path_eq text_eq
rename_answers_example =
    rename_answers (λ e. []) flows_dir (working two_flows) none (codes "backup") (codes "report")
      refl
