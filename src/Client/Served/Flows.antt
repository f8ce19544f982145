-- ===== src/Client/Served/Flows.antt =====
-- The methods of the client for flows, against the handlers of the server.
use yafe.Prelude.{refl, ap, inl, inr, Option-cases, []}
use yafe.Text.{Text, is_empty, text_eq}
use yafe.Result.{Result-cases, flow_not_found, flow_exists, invalid_flow_name}
use yafe.Exec.{◌>>=◌}
use yafe.Http.{get, post, put, delete, header}
use yafe.Server.{errors_is, respond, no_body, flows_body, flow_body}
use yafe.Server.Flows.{
  handle_list_flows, handle_get_flow, handle_add_flow, handle_delete_flow, handle_rename_flow,
}
use yafe.Server.Routes.{Route}
use yafe.Server.Serve.{ServerLibrary, Server, route_pattern, route_handler}
use yafe.Client.{HttpLibrary, Client, read_nothing, json_header}
use yafe.Client.Call
use yafe.Client.Served.{
  list_flows, get_flow, add_flow, delete_flow, rename_flow, flows_value, flow_value, nothing, Agree,
  IsPerformed, handler_for,
}
use yafe.Client.Served.Answers.{by_test, by_guard, by_result, exchange_settles}

module _ {S D : Type 0} (http : HttpLibrary D) (lib : ServerLibrary D) (server : Server S)
    (c : Client) (agree : Agree http lib) (url : Text) (s : S) where
  pub list_flows-IsPerformed : IsPerformed http lib server c url s list_flows
  unfolding route_pattern route_handler header handle_list_flows Call.list_flows
  list_flows-IsPerformed e (made, routed) = rw (← e) (
      exchange_settles http lib server c agree flows_value 200 _ get url [] http.no_body
        Route.get_flows [] (handler_for server list_flows) s made routed refl refl refl refl
        (λ P wrong right.
          by_result P (server.flows.list s).0
            (λ names. right (flows_body names) (rw (agree.got_flows names) refl))
            (λ e. wrong 500 _ refl)))

  pub get_flow-IsPerformed : (name : Text) → IsPerformed http lib server c url s (get_flow name)
  unfolding route_pattern route_handler header handle_get_flow Call.get_flow
  get_flow-IsPerformed name e (made, routed) = rw (← e) (
      exchange_settles http lib server c agree flow_value 200 _ get url [] http.no_body
        Route.get_flow name (handler_for server (get_flow name)) s made routed refl refl refl refl
        (λ P wrong right. by_guard P (is_empty name) s _ (wrong 400 _ refl) (
          by_result P (server.flows.get name s).0
            (λ content. right (flow_body name content) (rw (agree.got_flow name content) refl))
            (λ e.
              by_test P (errors_is e flow_not_found) (wrong 404 _ refl) (
                by_test P (errors_is e invalid_flow_name) (wrong 400 _ refl) (wrong 500 _ refl))))))

  pub delete_flow-IsPerformed :
      (name : Text) → IsPerformed http lib server c url s (delete_flow name)
  unfolding route_pattern route_handler header handle_delete_flow Call.delete_flow
  delete_flow-IsPerformed name e (made, routed) = rw (← e) (
      exchange_settles http lib server c agree (λ _. nothing) 204 _ delete url [] http.no_body
        Route.delete_flow name (handler_for server (delete_flow name)) s made routed refl refl refl
        refl
        (λ P wrong right. by_guard P (is_empty name) s _ (wrong 400 _ refl) (
          by_result P (server.flows.delete name s).0 (λ _. right no_body refl)
            (λ e.
              by_test P (errors_is e flow_not_found) (wrong 404 _ refl) (
                by_test P (errors_is e invalid_flow_name) (wrong 400 _ refl) (wrong 500 _ refl))))))

  pub add_flow-IsPerformed :
      (name : Text) (content : Text) → IsPerformed http lib server c url s (add_flow name content)
  unfolding route_pattern route_handler header text_eq handle_add_flow Call.add_flow
  add_flow-IsPerformed name content e (made, routed) =
      let (body, sent, decoded) = agree.sent_content content in
      rw (sent, ← e)
        (exchange_settles http lib server c agree (λ _. nothing) 201 _ put url json_header body
          Route.put_flow name (handler_for server (add_flow name content)) s made routed refl
          (ap (λ req. λ _. handle_add_flow server.error_text server.flows name req) decoded) refl
          refl
          (λ P wrong right. by_guard P (is_empty name) s _ (wrong 400 _ refl) (
            by_guard P (is_empty content) s _ (wrong 400 _ refl) (
              by_result P (server.flows.add name content s).0 (λ _. right no_body refl)
                (λ e.
                  by_test P (errors_is e invalid_flow_name) (wrong 400 _ refl)
                    (wrong 500 _ refl))))))

  pub rename_flow-IsPerformed :
      (old_name : Text) (new_name : Text)
      → IsPerformed http lib server c url s (rename_flow old_name new_name)
  unfolding route_pattern route_handler header handle_rename_flow Call.rename_flow
  rename_flow-IsPerformed old_name new_name e (made, routed) =
      let (body, sent, decoded) = agree.sent_new_name new_name in
      rw (sent, ← e)
        (exchange_settles http lib server c agree (λ _. nothing) 204 read_nothing post url [] body
          Route.post_rename_flow old_name (handler_for server (rename_flow old_name new_name)) s
          made routed refl
          (ap
            (λ req. λ _.
              handle_rename_flow server.error_text server.flows server.update_references old_name
                req)
            decoded)
          refl refl
          (λ P wrong right. by_guard P (is_empty old_name) s _ (wrong 400 _ refl) (
            by_guard P (is_empty new_name) s _ (wrong 400 _ refl)
              (elim (Result-cases (server.flows.rename old_name new_name s).0) [
                | inl (done, renamed) ↦ elim (Option-cases server.update_references) [
                  | inl alone ↦ rw (respond, ◌>>=◌, renamed, alone) (right no_body refl)
                  | inr (update, given) ↦ rw (respond, ◌>>=◌, renamed, given) (right no_body refl)
                ]
                | inr (e, failed) ↦
                    rw (respond, ◌>>=◌, failed)
                      (by_test P (errors_is e flow_not_found) (wrong 404 _ refl) (
                        by_test P (errors_is e flow_exists) (wrong 409 _ refl) (
                          by_test P (errors_is e invalid_flow_name) (wrong 400 _ refl)
                            (wrong 500 _ refl))))
              ]))))
