-- ===== src/Cli/Flows.antt =====
-- cmd/yafe/main.go: the commands of `yafe flows`.
use yafe.Prelude.{Option, List, [], ◌∷◌, ◌++◌, if◌then◌else◌}
use yafe.Text.{Text, codes}
use yafe.Result.{ok, err}
use yafe.Exec.{Exec}
use yafe.Http.{HttpRequest, HttpResponse}
use yafe.Output.{Table, new_table, add_row}
use yafe.Client.{HttpLibrary}
use yafe.Client.Call.{list_flows, get_flow, add_flow, rename_flow, delete_flow}
use yafe.Cli.{
  Command, Terminal, Action, shown_flows, call_failed, exit, prints, fetching, with_argument,
  with_two_arguments, prints_table, prints_json, with_client,
}

module _ {S D : Type 0} (os : Terminal S) (http : HttpLibrary D)
    (transport : Option Text → HttpRequest D → Exec S (HttpResponse D)) (cmd : Command) where
  add_flow_rows : List Text → Table → Table
  add_flow_rows [] table = table
  add_flow_rows (flow ∷ flows) table = add_flow_rows flows (add_row (os.utf8 flow ∷ []) table)

  -- `flowsListCmd`
  unfoldable pub flows_list : Action S
  unfolding add_flow_rows
  flows_list = with_client os cmd λ c.
      fetching (codes "failed to list flows") (list_flows http transport c) λ flows.
        if cmd.flag (codes "raw")
        then (elim flows [
          | [] ↦ prints (codes "[]" ++ (10 ∷ []))
          | flow ∷ rest ↦
              prints_json os (codes "failed to encode flows") (shown_flows (flow ∷ rest))
        ])
        else prints_table (add_flow_rows flows (new_table (codes "NAME" ∷ [])))

  -- `flowsGetCmd`
  unfoldable pub flows_get : Action S
  flows_get = with_argument cmd (codes "flow name required") λ flow_name. with_client os cmd λ c.
      fetching (codes "failed to get flow") (get_flow http transport c flow_name)
        λ flow. prints (os.utf8 flow.content)

  -- `flowsAddCmd`
  unfoldable pub flows_add : Action S
  flows_add =
      with_two_arguments cmd (codes "flow name and flow file required") λ flow_name flow_file.
        with_client os cmd λ c s. elim (os.read_file flow_file s).0 [
          | err e ↦
              exit (call_failed (codes "failed to read flow file") e) (os.read_file flow_file s).1
          | ok content ↦
              fetching (codes "failed to add flow") (add_flow http transport c flow_name content)
                (λ _. prints (codes "Flow added: " ++ (os.utf8 flow_name ++ (10 ∷ []))))
                (os.read_file flow_file s).1
        ]

  -- `flowsRenameCmd`
  unfoldable pub flows_rename : Action S
  flows_rename =
      with_two_arguments cmd (codes "old name and new name required") λ old_name new_name.
        with_client os cmd λ c.
          fetching (codes "failed to rename flow") (rename_flow http transport c old_name new_name)
            λ _. prints (
              codes "Flow renamed: "
              ++ (os.utf8 old_name ++ (codes " -> " ++ (os.utf8 new_name ++ (10 ∷ [])))))

  -- `flowsRemoveCmd`
  unfoldable pub flows_remove : Action S
  flows_remove = with_argument cmd (codes "flow name required") λ flow_name. with_client os cmd λ c.
      fetching (codes "failed to delete flow") (delete_flow http transport c flow_name)
        λ _. prints (codes "Flow deleted: " ++ (os.utf8 flow_name ++ (10 ∷ [])))
