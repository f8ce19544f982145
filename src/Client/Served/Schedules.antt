-- ===== src/Client/Served/Schedules.antt =====
-- The methods of the client for schedules, against the handlers of the server.
use yafe.Prelude.{refl, ap, []}
use yafe.Text.{Text, codes, is_empty, text_eq}
use yafe.Result.{schedule_not_found, schedule_exists, invalid_schedule_name}
use yafe.Exec.{Exec}
use yafe.Http.{get, post, put, delete, header}
use yafe.Server.{
  Answer, write_error, answer, respond, errors_is, no_body, schedules_body, schedule_body,
}
use yafe.Server.Schedules.{
  ScheduleRequest, handle_list_schedules, handle_get_schedule, handle_create_schedule,
  handle_update_schedule, handle_delete_schedule, handle_enable_schedule, handle_disable_schedule,
  is_refusal, requested, with_scheduler, with_name, name_error, ScheduleService,
}
use yafe.Server.Routes.{Route}
use yafe.Server.Serve.{ServerLibrary, Server, route_pattern, route_handler}
use yafe.Client.{HttpLibrary, Client, json_header}
use yafe.Client.Call
use yafe.Client.Served.{
  list_schedules, get_schedule, create_schedule, update_schedule, delete_schedule, enable_schedule,
  disable_schedule, schedules_value, schedule_value, nothing, Agree, IsPerformed, handler_for,
}
use yafe.Client.Served.Answers.{by_option, by_test, by_guard, by_result, exchange_settles}

module _ {S D : Type 0} (http : HttpLibrary D) (lib : ServerLibrary D) (server : Server S)
    (c : Client) (agree : Agree http lib) (url : Text) (s : S) where
  -- The answers of the handlers of one schedule.
  named :
      {A : Type 0} (P : Answer → Type 0) (name : Text) (call : ScheduleService S → Exec S A)
      (f : A → Answer) (otherwise : Text)
      → P (write_error 503 (codes "scheduler not configured"))
      → P (write_error 400 (codes "schedule name is required"))
      → P (write_error 404 (codes "schedule not found"))
      → ((m : Text) → P (write_error 400 m))
      → P (write_error 500 otherwise)
      → ((a : A) → P (f a))
      → P
          (with_scheduler server.error_text server.schedules
            (λ sched.
              with_name server.error_text server.schedules name
                (respond (call sched) f (name_error server.error_text server.schedules otherwise)))
            s).0
  named P name call f otherwise off unnamed missing bad broken good =
      by_option P server.schedules s _ off (λ sched. by_guard P (is_empty name) s _ unnamed (
        by_result P (call sched s).0 good (λ e.
          by_test P (errors_is e schedule_not_found) missing
            (by_test P (errors_is e invalid_schedule_name) (bad _) broken))))

  pub list_schedules-IsPerformed : IsPerformed http lib server c url s list_schedules
  unfolding route_pattern route_handler header handle_list_schedules Call.list_schedules
  list_schedules-IsPerformed e (made, routed) = rw (← e) (
      exchange_settles http lib server c agree schedules_value 200 _ get url [] http.no_body
        Route.get_schedules [] (handler_for server list_schedules) s made routed refl refl refl refl
        (λ P wrong right. by_option P server.schedules s _ (wrong 503 _ refl) (λ sched.
          by_result P (sched.list s).0
            (λ schedules.
              right (schedules_body schedules) (rw (agree.got_schedules schedules) refl))
            (λ e. wrong 500 _ refl))))

  pub get_schedule-IsPerformed :
      (name : Text) → IsPerformed http lib server c url s (get_schedule name)
  unfolding route_pattern route_handler header handle_get_schedule Call.get_schedule
  get_schedule-IsPerformed name e (made, routed) = rw (← e) (
      exchange_settles http lib server c agree schedule_value 200 _ get url [] http.no_body
        Route.get_schedule name (handler_for server (get_schedule name)) s made routed refl refl
        refl refl
        (λ P wrong right.
          named P name (λ sched. sched.get name) (λ schedule. answer 200 (schedule_body schedule)) _
            (wrong 503 _ refl) (wrong 400 _ refl) (wrong 404 _ refl) (λ m. wrong 400 m refl)
            (wrong 500 _ refl)
            (λ schedule. right (schedule_body schedule) (rw (agree.got_schedule schedule) refl))))

  pub delete_schedule-IsPerformed :
      (name : Text) → IsPerformed http lib server c url s (delete_schedule name)
  unfolding route_pattern route_handler header handle_delete_schedule Call.delete_schedule
  delete_schedule-IsPerformed name e (made, routed) = rw (← e) (
      exchange_settles http lib server c agree (λ _. nothing) 204 _ delete url [] http.no_body
        Route.delete_schedule name (handler_for server (delete_schedule name)) s made routed refl
        refl refl refl
        (λ P wrong right.
          named P name (λ sched. sched.delete name) (λ _. answer 204 no_body) _ (wrong 503 _ refl)
            (wrong 400 _ refl) (wrong 404 _ refl) (λ m. wrong 400 m refl) (wrong 500 _ refl)
            (λ _. right no_body refl)))

  pub enable_schedule-IsPerformed :
      (name : Text) → IsPerformed http lib server c url s (enable_schedule name)
  unfolding route_pattern route_handler header handle_enable_schedule Call.enable_schedule
  enable_schedule-IsPerformed name e (made, routed) = rw (← e) (
      exchange_settles http lib server c agree (λ _. nothing) 204 _ post url [] http.no_body
        Route.post_enable_schedule name (handler_for server (enable_schedule name)) s made routed
        refl refl refl refl
        (λ P wrong right.
          named P name (λ sched. sched.enable name) (λ _. answer 204 no_body) _ (wrong 503 _ refl)
            (wrong 400 _ refl) (wrong 404 _ refl) (λ m. wrong 400 m refl) (wrong 500 _ refl)
            (λ _. right no_body refl)))

  pub disable_schedule-IsPerformed :
      (name : Text) → IsPerformed http lib server c url s (disable_schedule name)
  unfolding route_pattern route_handler header handle_disable_schedule Call.disable_schedule
  disable_schedule-IsPerformed name e (made, routed) = rw (← e) (
      exchange_settles http lib server c agree (λ _. nothing) 204 _ post url [] http.no_body
        Route.post_disable_schedule name (handler_for server (disable_schedule name)) s made routed
        refl refl refl refl
        (λ P wrong right.
          named P name (λ sched. sched.disable name) (λ _. answer 204 no_body) _ (wrong 503 _ refl)
            (wrong 400 _ refl) (wrong 404 _ refl) (λ m. wrong 400 m refl) (wrong 500 _ refl)
            (λ _. right no_body refl)))

  pub create_schedule-IsPerformed :
      (name : Text) (req : ScheduleRequest)
      → IsPerformed http lib server c url s (create_schedule name req)
  unfolding route_pattern route_handler header text_eq handle_create_schedule Call.create_schedule
  create_schedule-IsPerformed name req e (made, routed) =
      let (body, sent, decoded) = agree.sent_create name req in
      rw (sent, ← e)
        (exchange_settles http lib server c agree (λ _. nothing) 201 _ post url json_header body
          Route.post_schedules [] (handler_for server (create_schedule name req)) s made routed refl
          (ap (λ q. λ _. handle_create_schedule server.error_text server.schedules q) decoded) refl
          refl
          (λ P wrong right. by_option P server.schedules s _ (wrong 503 _ refl) (λ sched.
            by_guard P (is_empty name) s _ (wrong 400 _ refl) (
              by_guard P (is_empty req.flow) s _ (wrong 400 _ refl) (
                by_guard P (is_empty req.kind) s _ (wrong 400 _ refl) (
                  by_guard P (is_empty req.expression) s _ (wrong 400 _ refl) (
                    by_result P (sched.create (requested name req) s).0 (λ _. right no_body refl)
                      (λ e. by_test P (errors_is e schedule_exists) (wrong 409 _ refl) (
                        by_test P (is_refusal server.error_text server.schedules e)
                          (wrong 400 _ refl) (wrong 500 _ refl))))))))))

  pub update_schedule-IsPerformed :
      (name : Text) (req : ScheduleRequest)
      → IsPerformed http lib server c url s (update_schedule name req)
  unfolding route_pattern route_handler header text_eq handle_update_schedule Call.update_schedule
  update_schedule-IsPerformed name req e (made, routed) =
      let (body, sent, decoded) = agree.sent_update req in
      rw (sent, ← e)
        (exchange_settles http lib server c agree (λ _. nothing) 204 _ put url json_header body
          Route.put_schedule name (handler_for server (update_schedule name req)) s made routed refl
          (ap (λ q. λ _. handle_update_schedule server.error_text server.schedules name q) decoded)
          refl refl
          (λ P wrong right. by_option P server.schedules s _ (wrong 503 _ refl) (λ sched.
            by_guard P (is_empty name) s _ (wrong 400 _ refl) (
              by_guard P (is_empty req.flow) s _ (wrong 400 _ refl) (
                by_guard P (is_empty req.kind) s _ (wrong 400 _ refl) (
                  by_guard P (is_empty req.expression) s _ (wrong 400 _ refl) (
                    by_result P (sched.update (requested name req) s).0 (λ _. right no_body refl)
                      (λ e. by_test P (errors_is e schedule_not_found) (wrong 404 _ refl) (
                        by_test P (is_refusal server.error_text server.schedules e)
                          (wrong 400 _ refl) (wrong 500 _ refl))))))))))
