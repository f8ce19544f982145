-- ===== src/Client.antt =====
-- internal/client/client.go: the requests that the client makes of the daemon, and what it makes of the
-- answers. A body is of any type `D`. What net/http, net/url and encoding/json do is a parameter, and
-- so is the transport, which turns a request into a response or an error.
pub mod Call
pub mod Served
use yafe.Prelude.{ℕ, Bool, Option, none, some, List, [], ◌∷◌, ◌++◌, map, ◌==◌, if◌then◌else◌}
use yafe.Text.{Text, codes, is_empty}
use yafe.Result.{Error, Result, ok, err}
use yafe.Exec.{Exec}
use yafe.Http.{api_key_header, Method, HttpRequest, HttpResponse}
use yafe.Server.Schedules.{ScheduleRequest}

-- `JobWithStatus`, the fields of the embedded `Job` among its own
pub record ClientJob : Type 0 where
  pub id : Text
  pub flow : Text
  pub inputs : List (Text × Text)
  pub created_at : ℕ
  pub started_at : Option ℕ
  pub ended_at : Option ℕ
  pub error : Text
  pub exit_code : Option ℕ
  pub status : Text

pub record FlowResponse : Type 0 where
  pub name : Text
  pub content : Text

-- `Schedule`
pub record ClientSchedule : Type 0 where
  pub name : Text
  pub flow : Text
  pub kind : Text
  pub expression : Text
  pub inputs : List (Text × Text)
  pub enabled : Bool
  pub created_at : ℕ
  pub last_run_at : Option ℕ
  pub next_run_at : Option ℕ

-- What is encoded as a body: a flow and its inputs, the content of a flow, a new name, and the two
-- requests for schedules, which have the fields of those that the server decodes.
pub data Payload : Type 0 where
  enqueue_payload : Text → List (Text × Text) → Payload
  content_payload : Text → Payload
  new_name_payload : Text → Payload
  create_payload : Text → ScheduleRequest → Payload
  update_payload : ScheduleRequest → Payload

-- The functions of net/http, net/url and encoding/json that the client calls. `with_query` parses a
-- URL, adds the pairs to its query and gives its text; `request_error` is the error of a request that
-- cannot be made; `read_all` gives what could be read, and the error after it; `decode_error` is the
-- field `error` of an answer that has the shape of an `ErrorResponse`.
pub record HttpLibrary (D : Type 0) : Type 0 where
  pub path_escape : Text → Text
  pub with_query : Text → List (Text × Text) → Result Text
  pub request_error : Method → Text → Option Error
  pub no_body : D
  pub marshal : Payload → Result D
  pub read_all : D → Text × Option Error
  pub decode_error : D → Option Text
  pub decode_jobs : D → Result (List ClientJob)
  pub decode_job : D → Result ClientJob
  pub decode_job_id : D → Result Text
  pub decode_flows : D → Result (List Text)
  pub decode_flow : D → Result FlowResponse
  pub decode_schedules : D → Result (List ClientSchedule)
  pub decode_schedule : D → Result ClientSchedule

-- `Client`; `socket` is the path that its transport dials, if it is one of a Unix socket.
pub record Client : Type 0 where
  pub socket : Option Text
  pub base_url : Text
  pub api_key : Text

-- `NewUnixSocketClient`
abbrev pub new_unix_socket_client : Text → Text → Client
new_unix_socket_client socket_path api_key = record {
  socket = some socket_path;
  base_url = codes "http://localhost";
  api_key = api_key;
}

-- `NewHTTPClient`
abbrev pub new_http_client : Text → Text → Client
new_http_client base_url api_key = record { socket = none; base_url = base_url; api_key = api_key }

-- The errors that the client returns: one of a library as it is, and those that it wraps or makes.
pub data ClientError : Type 0 where
  plain encoding not_running decoding reading : Error → ClientError
  server_error : Text → ClientError
  unexpected_status : ℕ → Text → ClientError

pub data Outcome (A : Type 0) : Type 0 where
  success : A → Outcome A
  refused : ClientError → Outcome A

abbrev pub Fetch : Type 0 → Type 0 → Type 0
Fetch S A = S → Outcome A × S

-- A result of a library, whose error the client returns as `f` says.
abbrev pub or_refuse : {A : Type 0} → (Error → ClientError) → Result A → Outcome A
or_refuse f (ok a) = success a
or_refuse f (err e) = refused (f e)

abbrev pub go_on : {S A B : Type 0} → Outcome A → (A → Fetch S B) → Fetch S B
go_on (success a) next s = next a s
go_on (refused e) next s = (refused e, s)

abbrev pub json_header : List (Text × Text)
json_header = (codes "Content-Type", codes "application/json") ∷ []

-- `wrapConnectionError`: both branches of its test make the same error.
abbrev pub wrap_connection_error : Error → ClientError
wrap_connection_error e = not_running e

-- `c.baseURL + path`, and with an escaped part behind it
abbrev pub url_of : Client → Text → Text
url_of c path = c.base_url ++ path

abbrev pub url_with : {D : Type 0} → HttpLibrary D → Client → Text → Text → Text → Text
url_with http c path part rest = c.base_url ++ (path ++ (http.path_escape part ++ rest))

-- For an answer of which only the status matters.
abbrev pub read_nothing : {D : Type 0} → D → Outcome (Unit {0})
read_nothing body = success tt

-- `parseError`
unfoldable pub parse_error : {D : Type 0} → HttpLibrary D → HttpResponse D → ClientError
parse_error http response =
    let unexpected = unexpected_status response.status_code (http.read_all response.body).0 in
    elim (http.decode_error response.body) [
      | none ↦ unexpected
      | some message ↦ if is_empty message then unexpected else server_error message
    ]

module _ {S D : Type 0} (http : HttpLibrary D)
    (transport : Option Text → HttpRequest D → Exec S (HttpResponse D)) (c : Client) where
  -- `do`
  unfoldable pub send : HttpRequest D → Exec S (HttpResponse D)
  send request = transport c.socket (
      if is_empty c.api_key
      then request
      else record request { headers = (api_key_header, c.api_key) ∷ request.headers })

  -- What every method does with its request: it is made and sent, the status of the answer is compared
  -- with the expected one, and the answer is read.
  unfoldable pub exchange :
      {A : Type 0} → Method → Text → List (Text × Text) → D → ℕ → (D → Outcome A) → Fetch S A
  unfolding send parse_error
  exchange method url headers body expected read s = elim (http.request_error method url) [
    | some e ↦ (refused (plain e), s)
    | none ↦
        let request : HttpRequest D = record {
          method = method;
          url = url;
          headers = headers;
          body = body;
        } in
        let (sent, after) = send request s in
        elim sent [
          | err e ↦ (refused (wrap_connection_error e), after)
          | ok response ↦ (
            if response.status_code == expected
                then read response.body
                else refused (parse_error http response),
            after,
          )
        ]
  ]
