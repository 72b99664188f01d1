-- ===== src/Cpptrace/Handlers.antt =====
-- `handle_users` and `handle_outgoing`.
use pinpoint_cpp_examples.Common.{
  ℕ, Option, none, some, List, [], ◌∷◌, ◌++◌, Text, lit, flatten, is_empty, get_elem?,
  if◌then◌else◌,
}
use pinpoint_cpp_examples.Common.Decimal.{to_string}
use pinpoint_cpp_examples.Trace.{
  client_request_headers, client_response_headers, default_type, on_event, inject_context,
  set_error_with_stack, trace_http_client_request, trace_http_client_response,
}
use pinpoint_cpp_examples.Trace.Program.{
  Program, Answer, value, ask, scoped, emit, pure, get_span_context, ◌>>=◌, ◌>>◌,
}
use pinpoint_cpp_examples.Http
use pinpoint_cpp_examples.Http.{Request, Response, Handler, set_content}
use pinpoint_cpp_examples.Cpptrace.Headers.{Multimap, set_all}

-- The `Response` of a call that got one.
pub record Reply : Type 0 where
  pub status : ℕ
  pub body : Text

-- `httplib::Result`: the response, null or not, and `to_string(error())`, `none` for Success.
pub record Result : Type 0 where
  pub response : Option Reply
  pub error : Option Text

-- cpp-httplib's client: its multimap of headers, the constructor `Client(host)`, which throws for a scheme
-- that it does not support, and the client's `Get(path, headers)`; and the trace context that the agent
-- writes.
pub record Httplib : Type 1 where
  pub Env : Type 0
  pub map : Multimap
  pub client : Text → Env → Answer (Unit {0}) × Env
  pub get_url : Text → Text → map.Headers → Env → Result × Env
  pub context : Env → List (Text × Text) × Env

abbrev pub or_text : Text → Text → Text
or_text t default = if is_empty t then default else t

-- `req.matches[1]`, if there is one.
abbrev pub user_id : Request → Text
user_id req = elim (get_elem? req.matches 1) [ none ↦ [] | some id ↦ id ]

unfoldable pub users_body : Request → Text
users_body req = flatten (
    lit "{\n"
    ∷ lit "  \"id\": \""
    ∷ user_id req
    ∷ lit "\",\n"
    ∷ lit "  \"name\": \""
    ∷ or_text (req.get_param_value (lit "name")) (lit "unknown")
    ∷ lit "\",\n"
    ∷ lit "  \"client_ip\": \""
    ∷ req.remote_addr
    ∷ lit "\"\n"
    ∷ lit "}"
    ∷ [])

abbrev pub host_of : Request → Text
host_of req = or_text (req.get_param_value (lit "host")) (lit "localhost:9000")

abbrev pub path_of : Request → Text
path_of req = or_text (req.get_param_value (lit "path")) (lit "/bar")

abbrev pub target_url : Request → Text
target_url req = lit "http://" ++ (host_of req ++ path_of req)

abbrev pub status_of : Result → ℕ
status_of r = elim r.response [ none ↦ 0 | some reply ↦ reply.status ]

abbrev pub body_of : Result → Text
body_of r = elim r.response [ none ↦ [] | some reply ↦ reply.body ]

unfoldable pub outgoing_body : Text → Result → Text
outgoing_body url r = flatten (
    lit "{\n"
    ∷ lit "  \"target_url\": \""
    ∷ url
    ∷ lit "\",\n"
    ∷ lit "  \"status_code\": "
    ∷ to_string (status_of r)
    ∷ lit ",\n"
    ∷ lit "  \"response_body\": \""
    ∷ body_of r
    ∷ lit "\"\n"
    ∷ lit "}"
    ∷ [])

abbrev pub err_msg : Text → Text → Text
err_msg host error =
    lit "Outgoing call failed: " ++ (error ++ (lit " - Unable to connect to " ++ host))

module _ (http : Httplib) where
  open http use {Env, map, client, get_url, context}

  unfoldable pub handle_users : Handler Env
  unfolding users_body
  handle_users req res = do
    span ← get_span_context
    scoped span (lit "handle_users") default_type λ e.
        pure (set_content (users_body req) (lit "application/json") (record res { status = 200 }))

  -- The headers before the trace context.
  unfoldable pub own_headers : map.Headers
  own_headers = map.emplace (lit "Accept-Language") (lit "en-US,en;q=0.5") (
      map.emplace (lit "Accept") (lit "application/json")
        (map.emplace (lit "User-Agent") (lit "cpptrace-demo") map.empty))

  -- Behind `cli.Get`, to the end of the event's scope.
  unfoldable pub told : ℕ → Result → Option Reply → Program Env Result
  told e r none = pure r
  told e r (some reply) = do
    emit (on_event e (trace_http_client_response reply.status client_response_headers))
    pure r

  -- Under the span event "httplib::Client.Get".
  unfoldable pub call_url : Text → Text → Text → ℕ → Program Env Result
  unfolding told own_headers
  call_url host path url e = do
    emit (on_event e (trace_http_client_request host url client_request_headers))
    emit (on_event e (inject_context client_request_headers))
    written ← ask (λ env. (value (context env).0, (context env).1))
    _ ← ask (client host)
    external_res ← ask (λ env.
        let (r, next) = get_url host path (set_all map written own_headers) env in (value r, next))
    told e external_res external_res.response

  unfoldable pub answer : ℕ → Request → Response → Result → Option Text → Program Env Response
  unfolding outgoing_body
  answer e req res r none = pure (
      set_content (outgoing_body (target_url req) r) (lit "application/json")
        (record res { status = 200 }))
  answer e req res r (some error) = do
    emit (
        on_event e (set_error_with_stack (lit "HandleOutgoingError") (err_msg (host_of req) error)))
    pure (
        set_content (outgoing_body (target_url req) r) (lit "application/json")
          (record res { status = 200 }))

  unfoldable pub handle_outgoing : Handler Env
  unfolding call_url answer
  handle_outgoing req res = do
    span ← get_span_context
    scoped span (lit "handle_outgoing") default_type λ e. do
      external_res ←
          scoped span (lit "httplib::Client.Get") default_type
            (call_url (host_of req) (path_of req) (target_url req))
      answer e req res external_res external_res.error

  unfoldable pub serve_users : ℕ → Handler Env
  serve_users span = Http.wrap_handler (lit "C++ Cpptrace Demo") span handle_users

  unfoldable pub serve_outgoing : ℕ → Handler Env
  serve_outgoing span = Http.wrap_handler (lit "C++ Cpptrace Demo") span handle_outgoing
