-- ===== src/Http.antt =====
-- What the examples do around every HTTP handler: `trace_request`, `trace_response` and
-- `wrap_handler`, which mysql, redis, mongodb, cpptrace and the gRPC client each spell out alike but
-- for the application's name. cpp-httplib's request is what its accessors return.
pub mod Wrapped
pub mod Server
use pinpoint_cpp_examples.Common.{
  ℕ, Bool, Option, none, some, List, [], ◌∷◌, ◌++◌, Text, String, lit, is_empty, if◌then◌else◌,
}
use pinpoint_cpp_examples.Common.Decimal.{to_string}
use pinpoint_cpp_examples.Trace.{
  Call, SpanOp, request_headers, response_headers, new_span, on_span, end_span,
  trace_http_server_request, trace_http_server_response,
}
use pinpoint_cpp_examples.Trace.Program.{Program, pure, emit, set_span_context, ◌>>=◌, ◌>>◌}

pub record Request : Type 0 where
  pub path : Text
  pub method : Text
  pub matched_route : Text
  pub remote_addr : Text
  pub local_addr : Text
  pub local_port : ℕ
  pub get_header_value : Text → Text
  pub has_param : Text → Bool
  pub get_param_value : Text → Text
  pub matches : List Text

-- `headers` are those that `set_header` adds, in order.
pub record Response : Type 0 where
  pub status : ℕ
  pub body : Text
  pub content_type : Text
  pub headers : List (Text × Text)

-- `res.set_header(name, value)`.
abbrev pub set_header : Text → Text → Response → Response
set_header name text res = record res { headers = res.headers ++ (name, text) ∷ [] }

-- `res.set_content(body, content_type)`.
abbrev pub set_content : Text → Text → Response → Response
set_content body content_type res = record res { body = body; content_type = content_type }

abbrev pub Handler : Type 0 → Type 0
Handler W = Request → Response → Program W Response

unfoldable pub end_point : Request → Text
end_point req =
    let host = req.get_header_value (lit "Host") in
    if is_empty host then req.local_addr ++ (b':' ∷ to_string req.local_port) else host

module _ {W : Type 0} where
  -- `span` is the pointer that `NewSpan` returns.
  unfoldable pub trace_request : Text → ℕ → Request → Program W (Unit {0})
  trace_request app span req = do
    emit (new_span span app req.path (some request_headers))
    emit (on_span span (trace_http_server_request req.remote_addr (end_point req) request_headers))

  unfoldable pub trace_response : Request → Response → ℕ → Program W (Unit {0})
  trace_response req res span = do
    emit (
        on_span span
          (trace_http_server_response req.matched_route req.method res.status response_headers))
    emit (end_span span)

  unfoldable pub wrap_handler : Text → ℕ → Handler W → Handler W
  unfolding trace_request trace_response
  wrap_handler app span handler req res = do
    trace_request app span req
    set_span_context (some span)
    done ← handler req res
    trace_response req done span
    set_span_context none
    pure done
