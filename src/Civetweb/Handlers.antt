-- ===== src/Civetweb/Handlers.antt =====
-- `handle_users`, `handle_health` and `handle_root`, as the list of what they send to the agent and to
-- the connection. CivetWeb's request is what `mg_get_request_info` gives.
use pinpoint_cpp_examples.Common.{
  ℕ, Bool, true, false, none, some, List, [], ◌∷◌, ◌++◌, Text, lit, length, take,
}
use pinpoint_cpp_examples.Common.Int.{ℤ, pos}
use pinpoint_cpp_examples.Common.Format.{Arg, text, int, printf}
use pinpoint_cpp_examples.Capi.{
  PtCall, default_type, new_span_with_reader, on_span, new_event, end_event, destroy_event,
  end_span, destroy_span, trace_http_server_request, trace_http_server_response,
}
use pinpoint_cpp_examples.Civetweb.Headers.{Headers, StaticHeaderArray, static_header_for_each}

pub record RequestInfo : Type 0 where
  pub request_method : Text
  pub request_uri : Text
  pub remote_addr : Text
  pub remote_port : ℤ

-- A call of the agent, its refusal to make a span, and what `mg_printf` writes.
pub data Act : Type 0 where
  agent : PtCall → Act
  no_span_made : Text → Text → Act
  printed : Text → Act

-- `snprintf` into 64 bytes.
unfoldable pub address_of : RequestInfo → Text
address_of info = take 63 (printf (lit "%s:%d") (text info.remote_addr ∷ int info.remote_port ∷ []))

-- What the agent reads from a static array, where no read leaves it.
unfoldable pub read_back : StaticHeaderArray → Headers
read_back arr = elim (static_header_for_each (λ k v ps. (false, ps ++ (k, v) ∷ [])) arr []) [
  | none ↦ []
  | some ps ↦ ps
]

unfoldable pub json_response : Text
json_response =
    lit "[\n"
    ++ (lit "  {\"id\": 1, \"name\": \"Alice\", \"email\": \"alice@example.com\"},\n"
        ++ (lit "  {\"id\": 2, \"name\": \"Bob\", \"email\": \"bob@example.com\"},\n"
            ++ (lit "  {\"id\": 3, \"name\": \"Charlie\", \"email\": \"charlie@example.com\"}\n"
                ++ lit "]\n")))

abbrev pub failure_body : Text
failure_body = lit "Tracing initialization failed\n"

abbrev pub health_response : Text
health_response = lit "{\"status\": \"healthy\", \"service\": \"civetweb-example\"}\n"

unfoldable pub html : Text
html =
    lit "<!DOCTYPE html>\n<html>\n"
    ++ (lit "<head><title>Pinpoint CivetWeb Example</title></head>\n<body>\n"
        ++ (lit "<h1>Pinpoint CivetWeb Example</h1>\n"
            ++ (lit "<p>Demo server showing the Pinpoint C API with CivetWeb.</p>\n"
                ++ (lit "<h2>Endpoints</h2>\n<ul>\n"
                    ++ (lit "<li><a href=\"/api/users\">/api/users</a></li>\n"
                        ++ (lit "<li><a href=\"/api/health\">/api/health</a></li>\n"
                            ++ lit "</ul>\n</body>\n</html>\n"))))))

-- The argument list `(int)strlen(body), body`.
abbrev pub sized : Text → List Arg
sized body = int (pos (length body)) ∷ text body ∷ []

abbrev pub users_pairs : List Text
users_pairs =
    lit "Content-Type" ∷ lit "application/json" ∷ lit "X-Powered-By" ∷ lit "Pinpoint-CivetWeb" ∷ []

abbrev pub health_pairs : List Text
health_pairs = lit "Content-Type" ∷ lit "application/json" ∷ []

-- From the new span to the work's event.
unfoldable pub begin : Text → RequestInfo → List Act
unfolding address_of
begin name info =
    agent (new_span_with_reader info.request_method info.request_uri)
    ∷ agent (on_span (trace_http_server_request (address_of info) info.request_uri))
    ∷ agent (new_event name default_type)
    ∷ []

-- From the end of the event on.
unfoldable pub finish : StaticHeaderArray → RequestInfo → List Act
unfolding read_back
finish response_arr info =
    agent end_event
    ∷ agent destroy_event
    ∷ agent (
        on_span (
          trace_http_server_response info.request_uri info.request_method 200
            (read_back response_arr)))
    ∷ agent end_span
    ∷ agent destroy_span
    ∷ []

-- Each handler is told whether the agent makes a span, and returns a status.
unfoldable pub handle_users : Bool → RequestInfo → List Act × ℕ
unfolding begin finish json_response
handle_users false info = (
  no_span_made info.request_method info.request_uri
      ∷ printed (
          printf
            (lit "HTTP/1.1 500 Internal Server Error\r\n"
              ++ (lit "Content-Type: text/plain\r\n" ++ lit "Content-Length: %d\r\n\r\n%s"))
            (sized failure_body))
      ∷ [],
  500,
)
handle_users true info = (
  begin (lit "handle_users") info
      ++ printed (
          printf
            (lit "HTTP/1.1 200 OK\r\n"
              ++ (lit "Content-Type: application/json\r\n"
                  ++ (lit "Content-Length: %d\r\n"
                      ++ (lit "X-Powered-By: Pinpoint-CivetWeb\r\n" ++ (lit "\r\n" ++ lit "%s")))))
            (sized json_response))
        ∷ finish (record { pairs = users_pairs; count = 2 }) info,
  200,
)

unfoldable pub health_printed : Act
health_printed = printed (
    printf
      (lit "HTTP/1.1 200 OK\r\n"
        ++ (lit "Content-Type: application/json\r\n"
            ++ (lit "Content-Length: %d\r\n" ++ (lit "\r\n" ++ lit "%s"))))
      (sized health_response))

unfoldable pub handle_health : Bool → RequestInfo → List Act × ℕ
unfolding begin finish health_printed
handle_health false info =
    (no_span_made info.request_method info.request_uri ∷ health_printed ∷ [], 200)
handle_health true info = (
  begin (lit "handle_health") info
      ++ health_printed ∷ finish (record { pairs = health_pairs; count = 1 }) info,
  200,
)

unfoldable pub handle_root : List Act × ℕ
unfolding html
handle_root = (
  printed (
        printf
          (lit "HTTP/1.1 200 OK\r\n"
            ++ (lit "Content-Type: text/html\r\n"
                ++ (lit "Content-Length: %d\r\n" ++ (lit "\r\n" ++ lit "%s"))))
          (sized html))
      ∷ [],
  200,
)
