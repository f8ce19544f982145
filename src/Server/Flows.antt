-- ===== src/Server/Flows.antt =====
-- The handlers of flows.
pub mod Stored
use yafe.Prelude.{Bool, true, false, Option, none, some, List, [], ◌∷◌, if◌then◌else◌}
use yafe.Text.{Text, codes, is_empty}
use yafe.Result.{Error, Result, ok, err, flow_not_found, flow_exists, invalid_flow_name}
use yafe.Exec.{Exec, pure, attempt, ◌>>=◌, ◌>>◌}
use yafe.Server.{
  Answer, Handling, answer, write_error, respond, reply, if_empty, errors_is, no_body, flows_body,
  flow_body,
}

-- The operations of `registry.FlowRegistry` that the handlers call, on contents that are text.
pub record FlowService (S : Type 0) : Type 0 where
  pub list : Exec S (List Text)
  pub get : Text → Exec S Text
  pub add : Text → Text → Exec S (Unit {0})
  pub delete : Text → Exec S (Unit {0})
  pub rename : Text → Text → Exec S (Unit {0})

module _ {S : Type 0} (error_text : Error → Text) (flows : FlowService S) where
  unfoldable pub handle_list_flows : Handling S
  handle_list_flows =
      respond flows.list (λ names. answer 200 (flows_body names))
        (λ e. write_error 500 (codes "failed to list flows"))

  unfoldable pub handle_get_flow : Text → Handling S
  handle_get_flow name =
      if_empty (is_empty name) (write_error 400 (codes "flow name is required")) (
        respond (flows.get name) (λ content. answer 200 (flow_body name content))
          (λ e.
            if errors_is e flow_not_found
            then write_error 404 (codes "flow not found")
            else if errors_is e invalid_flow_name
            then write_error 400 (error_text e)
            else write_error 500 (codes "failed to get flow")))

  -- `content` is the field of the decoded request.
  unfoldable pub handle_add_flow : Text → Option Text → Handling S
  handle_add_flow name request =
      if_empty (is_empty name) (write_error 400 (codes "flow name is required")) λ s. elim request [
        | none ↦ (write_error 400 (codes "invalid request body"), s)
        | some content ↦
            if_empty (is_empty content) (write_error 400 (codes "content is required"))
              (respond (flows.add name content) (λ _. answer 201 no_body)
                (λ e.
                  if errors_is e invalid_flow_name
                  then write_error 400 (error_text e)
                  else write_error 500 (codes "failed to add flow")))
              s
      ]

  unfoldable pub handle_delete_flow : Text → Handling S
  handle_delete_flow name =
      if_empty (is_empty name) (write_error 400 (codes "flow name is required")) (
        respond (flows.delete name) (λ _. answer 204 no_body)
          (λ e.
            if errors_is e flow_not_found
            then write_error 404 (codes "flow not found")
            else if errors_is e invalid_flow_name
            then write_error 400 (error_text e)
            else write_error 500 (codes "failed to delete flow")))

  -- `update_references` is `UpdateFlowReferences` of the scheduler, if there is one; its error is
  -- only logged.
  unfoldable pub handle_rename_flow :
      Option (Text → Text → Exec S (Unit {0})) → Text → Option Text → Handling S
  handle_rename_flow update_references old_name request =
      if_empty (is_empty old_name) (write_error 400 (codes "flow name is required")) λ s.
        elim request [
          | none ↦ (write_error 400 (codes "invalid request body"), s)
          | some new_name ↦
              if_empty (is_empty new_name) (write_error 400 (codes "new_name is required"))
                (respond {A = Unit {0}}
                  (do
                    flows.rename old_name new_name
                    λ after. elim update_references [
                      | none ↦ (ok tt, after)
                      | some update ↦ (ok tt, (update old_name new_name after).1)
                    ])
                  (λ _. answer 204 no_body)
                  (λ e.
                    if errors_is e flow_not_found
                    then write_error 404 (codes "flow not found")
                    else if errors_is e flow_exists
                    then write_error 409 (codes "flow already exists")
                    else if errors_is e invalid_flow_name
                    then write_error 400 (error_text e)
                    else write_error 500 (codes "failed to rename flow")))
                s
        ]
