-- ===== src/Client/Served/Answers.antt =====
-- How the answers of the server reach the client: the request that is sent comes to its handler, and
-- the client reads what the handler answers.
use yafe.Prelude.{
  ℕ, ◌≡◌, refl, ap, Bool, true, false, Option, none, some, List, [], ◌∷◌, ◌==◌, arith,
  if◌then◌else◌, ◌⊎◌, inl, inr, Bool-cases, ==_iff, Option-cases,
}
use yafe.Text.{Text, is_empty, text_eq}
use yafe.Result.{Error, Result, ok, err}
use yafe.Auth.Middleware.{Request, Handler, reply, with_user, middleware, require_role}
use yafe.Auth.{Role, has_role, Authenticator}
use yafe.Http.{Method, HttpRequest, header, api_key_header}
use yafe.Server.{Answer, answer, Body, Handling, write_error}
use yafe.Server.Routes.{Route, api_handler, route_role}
use yafe.Server.Serve.{ServerLibrary, Server, route_handler, settle, guarded, serve, respond_to}
use yafe.Client.{HttpLibrary, Client, Outcome, refused, parse_error, send, exchange}
use yafe.Client.Served.{
  Value, Agree, report, report_body, relabel, relabel_outcome, server_transport,
}

-- The request as it is sent with a key.
abbrev pub keyed : {D : Type 0} → Text → HttpRequest D → HttpRequest D
keyed key q = if is_empty key then q else record q { headers = (api_key_header, key) ∷ q.headers }

-- What holds of an answer on each branch of a handler holds of its answer.
module _ (P : Answer → Type 0) where
  pub by_test : (b : Bool) {a a' : Answer} → P a → P a' → P (if b then a else a')
  by_test true p q = p
  by_test false p q = q

  pub by_guard :
      {S : Type 0} (b : Bool) {a : Answer} (s : S) (rest : Answer × S)
      → P a
      → P rest.0
      → P (if b then (a, s) else rest).0
  by_guard true s rest p q = p
  by_guard false s rest p q = q

  pub by_option :
      {A S : Type 0} (o : Option A) {a : Answer} (s : S) (h : A → Answer × S)
      → P a
      → ((x : A) → P (h x).0)
      → P (elim o as (λ _. Answer × S) [ none ↦ (a, s) | some x ↦ h x ]).0
  by_option none s h p q = p
  by_option (some x) s h p q = q x

  pub by_result :
      {A : Type 0} (r : Result A) {f : A → Answer} {g : Error → Answer}
      → ((a : A) → P (f a))
      → ((e : Error) → P (g e))
      → P (elim r [ ok a ↦ f a | err e ↦ g e ])
  by_result (ok a) p q = p a
  by_result (err e) p q = q e

module _ {S D : Type 0} (lib : ServerLibrary D) (server : Server S) where
  pub serve-keyed :
      (key : Text) (route : Route) (value : Text) (q : HttpRequest D) (s : S)
      → lib.route_of q.method q.url ≡ some (route, value)
      → header api_key_header q.headers ≡ []
      → serve lib server (keyed key q) s
        ≡ guarded lib server route (route_handler lib server route value q.url q.body) key s
  unfolding serve header text_eq is_empty
  serve-keyed [] route value q s routed bare = rw (routed, serve, bare) refl
  serve-keyed (k ∷ ks) route value q s routed bare = rw (routed, serve) refl

  -- Behind the middleware stands an error that it writes, or what the handler answers.
  module _ (P : Answer → Type 0) (h : Handling S) (s : S)
      (refusal : (code : ℕ) (message : Text)
        → (code ≡ 401) ⊎ (code ≡ 403)
        → P (write_error code message))
      (inner : P (h s).0) where
    role_settles :
        (role : Option Role) (r : Request)
        → P
            (settle
              ((elim role as (λ _. Handler (Handling S)) [
                | none ↦ λ _. reply h
                | some needed ↦ require_role needed (λ _. reply h)
              ])
                r)
              s).0
    unfolding require_role
    role_settles none r = inner
    role_settles (some needed) r = elim (Option-cases r.user) [
      | inl e ↦ rw (require_role, e) inner
      | inr (user, e) ↦ elim (Bool-cases (has_role needed user)) [
        | inl has ↦ rw (require_role, e, has) inner
        | inr lacks ↦ rw (require_role, e, lacks) (refusal 403 _ (inr refl))
      ]
    ]

    middleware_settles :
        (auth : Option Authenticator) (required : Bool) (next : Handler (Handling S)) (r : Request)
        → ((r' : Request) → P (settle (next r') s).0)
        → P (settle (middleware auth required next r) s).0
    unfolding middleware
    middleware_settles none true next r k = refusal 401 _ (inl refl)
    middleware_settles none false next r k = k r
    middleware_settles (some auth) required next r k = elim (Bool-cases (is_empty r.api_key)) [
      | inl bare ↦ elim (Bool-cases required) [
        | inl y ↦ rw (middleware, bare, y) (refusal 401 _ (inl refl))
        | inr n ↦ rw (middleware, bare, n) (k r)
      ]
      | inr given ↦ elim (Option-cases (auth r.api_key)) [
        | inl unknown ↦ rw (middleware, given, unknown) (refusal 401 _ (inl refl))
        | inr (user, known) ↦ rw (middleware, given, known) (k (with_user r user))
      ]
    ]

    pub guarded_settles :
        (route : Route) (key : Text) → P (guarded lib server route (λ _. h) key s).0
    unfolding guarded api_handler
    guarded_settles route key =
        middleware_settles server.auth server.required _ _ (role_settles (route_role route))

module _ {S D : Type 0} (http : HttpLibrary D) (lib : ServerLibrary D) (server : Server S)
    (c : Client) where
  -- What the client makes of an answer, where it expects a status and reads a body.
  abbrev pub received : {A : Type 0} → (A → Value) → ℕ → (D → Outcome A) → Answer → Outcome Value
  received f expected read a = relabel_outcome f (
      if a.code == expected
      then read (lib.encode a.body)
      else refused (parse_error http (record { status_code = a.code; body = lib.encode a.body })))

  pub exchange_lem :
      {A : Type 0} (f : A → Value) (method : Method) (url : Text) (headers : List (Text × Text))
      (body : D) (expected : ℕ) (read : D → Outcome A) (s : S)
      → http.request_error method url ≡ none
      → let q : HttpRequest D = record {
        method = method;
        url = url;
        headers = headers;
        body = body;
      } in
        relabel f
          (exchange http (server_transport lib server) c method url headers body expected read)
          s
        ≡ (
          received f expected read (serve lib server (keyed c.api_key q) s).0,
          (serve lib server (keyed c.api_key q) s).1,
        )
  unfolding exchange send respond_to
  exchange_lem f method url headers body expected read s made =
      rw (exchange, made, send, respond_to) refl

module _ {S D : Type 0} (http : HttpLibrary D) (lib : ServerLibrary D) (server : Server S)
    (c : Client) (agree : Agree http lib) {A : Type 0} (f : A → Value) (expected : ℕ)
    (read : D → Outcome A) where
  -- The client reads an answer as what it says.
  abbrev Fits : Answer → Type 0
  Fits a = received http lib server c f expected read a ≡ report http lib a

  error-Fits :
      (code : ℕ) (message : Text) → (code == expected) ≡ false → Fits (write_error code message)
  unfolding parse_error
  error-Fits code message other = ground (arith, agree.got_error message)

  guarded-Fits :
      (route : Route) (h : Handling S) (key : Text) (s : S)
      → (401 == expected) ≡ false
      → (403 == expected) ≡ false
      → Fits (h s).0
      → Fits (guarded lib server route (λ _. h) key s).0
  guarded-Fits route h key s p q fits =
      guarded_settles lib server Fits h s
        (λ code message denied. error-Fits code message (ground arith)) fits route key

  -- An answer with the expected status and a body that the client reads as it is, or an error with
  -- another status.
  right-Fits :
      (body : Body)
      → relabel_outcome f (read (lib.encode body)) ≡ report_body http lib expected body
      → Fits (answer expected body)
  right-Fits body e = rw ((==_iff expected expected).1 refl) e

  -- A request that comes to a handler all of whose answers are such is read as what it answers.
  pub exchange_settles :
      (method : Method) (url : Text) (headers : List (Text × Text)) (body : D) (route : Route)
      (value : Text) (h : Handling S) (s : S)
      → http.request_error method url ≡ none
      → lib.route_of method url ≡ some (route, value)
      → header api_key_header headers ≡ []
      → route_handler lib server route value url body ≡ (λ _. h)
      → (401 == expected) ≡ false
      → (403 == expected) ≡ false
      → ((P : Answer → Type 0)
          → ((code : ℕ) (message : Text)
              → (code == expected) ≡ false
              → P (write_error code message))
          → ((b : Body)
              → relabel_outcome f (read (lib.encode b)) ≡ report_body http lib expected b
              → P (answer expected b))
          → P (h s).0)
      → let settled = guarded lib server route (λ _. h) c.api_key s in
        relabel f
          (exchange http (server_transport lib server) c method url headers body expected read)
          s
        ≡ (report http lib settled.0, settled.1)
  exchange_settles method url headers body route value h s made routed bare same p q fits =
      let request : HttpRequest D = record {
        method = method;
        url = url;
        headers = headers;
        body = body;
      } in
      let reached : serve lib server (keyed c.api_key request) s
          ≡ guarded lib server route (λ _. h) c.api_key s =
        rw (← same) (serve-keyed lib server c.api_key route value request s routed bare) in
      rw (exchange_lem http lib server c f method url headers body expected read s made, reached)
        (ap (λ o. (o, (guarded lib server route (λ _. h) c.api_key s).1))
          (guarded-Fits route h c.api_key s p q (fits Fits error-Fits right-Fits)))
