-- ===== src/Cli/Jobs/Stored.antt =====
-- `yafe jobs enqueue` from the arguments to the disk: the command, the client, the server behind its
-- authentication, and the queue.
use yafe.Prelude.{
  ℕ, ◌≡◌, ◌≢◌, refl, ap, ◌∙◌, sym, Bool, true, none, some, List, [], ◌∷◌, ◌++◌, inl, inr, ◌⊎◌,
  arith, Bool-cases,
}
use yafe.Text.{Text, codes, is_empty}
use yafe.Result.{Error, Result-cases, flow_not_found}
use yafe.Disk.{Disk, at}
use yafe.Job.{pending, job_filename}
use yafe.Queue.{FileQueue, job_path}
use yafe.Queue.Enqueue.{new_job}
use yafe.Auth.{User, has_role, jobs_write}
use yafe.Auth.Middleware.{authenticated, middleware, require_role}
use yafe.Server.{Answer, error_body, errors_is}
use yafe.Server.Jobs.{JobService, EnqueueRequest, handle_enqueue}
use yafe.Server.Jobs.Stored.{queue_jobs, enqueue_code, enqueue_answers}
use yafe.Server.Routes.{api_handler, route_role}
use yafe.Server.Serve.{ServerLibrary, Server, guarded}
use yafe.Client.{
  HttpLibrary, Client, ClientError, unexpected_status, server_error, Outcome, success, refused,
}
use yafe.Client.Call
use yafe.Client.Served.{
  text_value, enqueue_job, Agree, UrlFor, Reaches, relabel_outcome, answered, handler_for, report,
  report_body, server_transport,
}
use yafe.Client.Served.Performed.{call_performed}
use yafe.Cli.{Command, Terminal, Ending, client_failed, new_client, parse_inputs}
use yafe.Cli.Jobs.{jobs_enqueue}

module _ {S D : Type 0} (lib : ServerLibrary D) (server : Server S) (c : Client) (user : User) where
  -- Behind the authentication of a user who may write jobs stands the handler.
  answered_for :
      (flow : Text) (inputs : List (Text × Text)) (s : S)
      → authenticated server.auth (record { api_key = c.api_key; user = none }) ≡ some user
      → has_role jobs_write user ≡ true
      → answered lib server c (enqueue_job flow inputs) s
        ≡ handler_for server (enqueue_job flow inputs) s
  unfolding guarded api_handler middleware require_role route_role
  answered_for flow inputs s known may = ground (arith, may)

-- A job's id that a call gives stands in the outcome of the method.
relabelled :
    (o : Outcome Text) (id : Text)
    → relabel_outcome text_value o ≡ success (text_value id)
    → o ≡ success id
relabelled (success a) id h = ground arith
relabelled (refused e) id h = ground arith

relabelled_error :
    (o : Outcome Text) (e : ClientError) → relabel_outcome text_value o ≡ refused e → o ≡ refused e
relabelled_error (success a) e h = ground arith
relabelled_error (refused e') e h = ground arith

-- The handler answers with 202 or with an error.
enqueue_cases :
    {S : Type 0} (error_text : Error → Text) (jobs : JobService S) (req : EnqueueRequest) (s : S)
    → ((handle_enqueue error_text jobs (some req) s).0.code ≡ 202)
      ⊎ ((m : Text) × ((handle_enqueue error_text jobs (some req) s).0.body ≡ error_body m))
unfolding handle_enqueue
enqueue_cases error_text jobs req s = elim (Bool-cases (is_empty req.flow)) [
  | inl y ↦ inr (codes "flow is required", rw y)
  | inr n ↦ elim (Result-cases (jobs.enqueue req.flow req.inputs s).0) [
    | inl (job, made) ↦ inl (rw (n, made))
    | inr (e, failed) ↦ elim (Bool-cases (errors_is e flow_not_found)) [
      | inl y ↦ inr (error_text e, rw (n, failed, y))
      | inr z ↦ inr (codes "failed to enqueue job", rw (n, failed, z))
    ]
  ]
]

report-error :
    {D : Type 0} (http : HttpLibrary D) (lib : ServerLibrary D) (a : Answer) (m : Text)
    → a.body ≡ error_body m
    → (e : ClientError) × (report http lib a ≡ refused e)
report-error http lib a m h = elim (Bool-cases (is_empty m)) [
  | inl y ↦ (unexpected_status a.code (http.read_all (lib.encode (error_body m))).0, rw (h, y) refl)
  | inr n ↦ (server_error m, rw (h, n) refl)
]

module _ {C D : Type 0} (os : Terminal (Disk C)) (http : HttpLibrary D) (lib : ServerLibrary D)
    (q : FileQueue C) (text : C → Text) (exists : Text → Bool) (now : ℕ) (id : Text)
    (server : Server (Disk C)) (cmd : Command) (flow : Text) (inputs : List (Text × Text))
    (disk : Disk C) where
  -- The daemon whose queue is on the disk.
  abbrev pub on_queue : Server (Disk C)
  on_queue = record server { jobs = queue_jobs q text exists now id }

  abbrev request : EnqueueRequest
  request = record { flow = flow; inputs = inputs }

  abbrev pub enqueued : Ending × Disk C
  enqueued = jobs_enqueue os http (server_transport lib on_queue) cmd disk

  called : Client → Outcome Text × Disk C
  called c = Call.enqueue_job http (server_transport lib on_queue) c flow inputs disk

  -- What the command ends with, by the outcome of the call.
  module _ (rest : List Text) (c : Client) (args : cmd.args ≡ flow ∷ rest)
      (made : new_client os cmd disk ≡ inr c)
      (given : parse_inputs [] (cmd.texts (codes "input")) ≡ inr inputs) where
    enqueued_id :
        (called c).0 ≡ success id
        → enqueued ≡ (
          record { printed = codes "Job enqueued: " ++ (os.utf8 id ++ (10 ∷ [])); failed = none },
          (called c).1,
        )
    unfolding jobs_enqueue called
    enqueued_id h = ground arith

    enqueued_error :
        (e : ClientError)
        → (called c).0 ≡ refused e
        → enqueued.0 ≡ (record {
          printed = [];
          failed = some (client_failed (codes "failed to enqueue job") e);
        })
    unfolding jobs_enqueue called
    enqueued_error e h = ground arith

  -- `yafe jobs enqueue` with a flow and inputs that it can read, against a server whose queue is on the
  -- disk, where client and server read what the other encodes, the URL is routed, the key is that of a
  -- user who may write jobs, and every call of the disk works. If the server's handler answers 202, the
  -- command prints the id of the job, and the pending file of the job, with its flow and inputs, is on
  -- the disk. Otherwise the command prints nothing and ends with the error of the client.
  pub enqueue_stored :
      (rest : List Text) (c : Client) (user : User) (url : Text) (agree : Agree http lib)
      → cmd.args ≡ flow ∷ rest
      → new_client os cmd disk ≡ inr c
      → parse_inputs [] (cmd.texts (codes "input")) ≡ inr inputs
      → UrlFor http lib c (enqueue_job flow inputs) url
      → Reaches http lib (enqueue_job flow inputs) url
      → authenticated server.auth (record { api_key = c.api_key; user = none }) ≡ some user
      → has_role jobs_write user ≡ true
      → disk.outcomes ≡ []
      → let code = enqueue_code q text exists now id server.error_text request disk in
        let job = new_job now id flow inputs in
        (code ≡ 202
          → (enqueued.0 ≡ (record {
            printed = codes "Job enqueued: " ++ (os.utf8 id ++ (10 ∷ []));
            failed = none;
          }))
            × (at enqueued.1 (job_path q pending (job_filename job)) ≡ some (q.codec.encode job)))
        × (code ≢ 202
            → (e : ClientError) × (enqueued.0 ≡ (record {
              printed = [];
              failed = some (client_failed (codes "failed to enqueue job") e);
            })))
  unfolding called
  enqueue_stored rest c user url agree args made given at_url reached known may works =
      let answered_now = answered lib on_queue c (enqueue_job flow inputs) disk in
      let handled = handler_for on_queue (enqueue_job flow inputs) disk in
      let through : answered_now ≡ handled =
        answered_for lib on_queue c user flow inputs disk known may in
      let performed =
        call_performed http lib on_queue c agree url disk (enqueue_job flow inputs) at_url
          reached in
      let outcome : relabel_outcome text_value (called c).0 ≡ report http lib handled.0 =
        ap (λ p. p.0) performed ∙ ap (λ p. report http lib p.0) through in
      let left : (called c).1 ≡ handled.1 = ap (λ p. p.1) performed ∙ ap (λ p. p.1) through in
      let (coded, stored) =
        enqueue_answers q text exists now id server.error_text request disk works in
      (
        λ e.
            let (body, kept) = stored (coded ∙ e) in
            let ended = enqueued_id rest c args made given (
              relabelled (called c).0 id
                (outcome ∙ ap (report_body http lib handled.0.code) body)) in
            (ap (λ p. p.0) ended, rw (ap (λ p. p.1) ended, left) kept),
        λ n. elim (enqueue_cases server.error_text on_queue.jobs request disk) [
          | inl y ↦ absurd (n (sym coded ∙ y))
          | inr (m, body) ↦
              let (e, refusal) = report-error http lib handled.0 m body in
              (
                e,
                enqueued_error rest c args made given e
                    (relabelled_error (called c).0 e (outcome ∙ refusal)),
              )
        ],
      )
