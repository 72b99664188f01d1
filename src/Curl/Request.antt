-- ===== src/Curl/Request.antt =====
-- `perform_curl_request` and `handle_run_request`. libcurl is an interface here.
use pinpoint_cpp_examples.Common.{
  ℕ, ◌%◌, ◌^◌, Bool, true, false, Option, none, some, List, [], ◌∷◌, ◌++◌, Text, lit, take, All,
  c_string, if◌then◌else◌,
}
use pinpoint_cpp_examples.Trace.{
  request_headers, response_headers, client_request_headers, curl_headers, curl_handle, curl_list,
  cpp_http_client, new_span, on_span, on_event, end_span, acquire, release, set_error,
  inject_context, trace_http_client_request, trace_http_client_response, trace_http_server_request,
  trace_http_server_response,
}
use pinpoint_cpp_examples.Trace.Program.{Program, value, ask, scoped, emit, pure, ◌>>=◌, ◌>>◌}
use pinpoint_cpp_examples.Http.{Request, Response, Handler, set_content}
use pinpoint_cpp_examples.Curl.Headers.{set, extract_host}
use pinpoint_cpp_examples.Curl.Received.{Chunk, IsWhole, received}

-- What a transfer ends with: the text of its error, none for CURLE_OK, the response code and
-- what the write callback was called with.
pub record Transfer : Type 0 where
  pub error : Option Text
  pub response_code : ℕ
  pub chunks : List Chunk

-- A header that the agent writes, and whether curl has memory for it.
pub record Written : Type 0 where
  pub has_memory : Bool
  pub key : Text
  pub value : Text

-- libcurl: whether `curl_easy_init` has a handle, the transfer of a URL with the given headers,
-- which calls the callback as documented; and the headers that the agent injects.
pub record Curl : Type 1 where
  pub Env : Type 0
  pub init : Env → Bool × Env
  pub injected : Env → List Written × Env
  pub perform : Text → List Text → Env → Transfer × Env
  pub perform_whole :
      (url : Text) (headers : List Text) (env : Env)
      → All IsWhole (perform url headers env).0.chunks

unfoldable pub written_headers : List Written → List Text → List Text
written_headers [] headers = headers
written_headers (w ∷ ws) headers = written_headers ws (set w.has_memory w.key w.value headers)

module _ (curl : Curl) where
  open curl use {Env, init, injected, perform}

  -- The list of headers as an object: a line makes it, if there was none, and a line for which curl has no
  -- memory loses it; nothing frees a lost list.
  unfoldable pub hold_list : Bool → List Text → Program Env (Unit {0})
  hold_list true [] = emit (acquire curl_list)
  hold_list has_memory headers = pure tt

  -- `Set` for each header.
  unfoldable pub append_all : List Written → List Text → Program Env (Unit {0})
  unfolding hold_list
  append_all [] headers = pure tt
  append_all (w ∷ ws) headers = do
    hold_list w.has_memory headers
    append_all ws (set w.has_memory w.key w.value headers)

  -- `curl_slist_free_all`, which does nothing for a null list.
  unfoldable pub free_list : List Text → Program Env (Unit {0})
  free_list [] = pure tt
  free_list (line ∷ headers) = emit (release curl_list)

  unfoldable pub free_all : List Text → Program Env (Unit {0})
  unfolding free_list
  free_all headers = do emit (release curl_handle); free_list headers

  -- Behind the transfer: the result and `out_response`.
  unfoldable pub report : ℕ → List Text → Option Text → ℕ → Text → Program Env (Bool × Text)
  unfolding free_all
  report e headers (some message) code body = do
    emit (on_event e (set_error message))
    free_all headers
    pure (false, body)
  report e headers none code body = do
    emit (on_event e (trace_http_client_response (code % 2 ^ 32) (curl_headers none)))
    free_all headers
    pure (true, body)

  -- From the reader of the headers on.
  unfoldable pub send : Text → ℕ → List Text → Program Env (Bool × Text)
  unfolding report
  send url e headers = do
    emit (
        on_event e (trace_http_client_request (extract_host url) url (curl_headers (some headers))))
    result ← ask (λ env. let (t, next) = perform (c_string url) headers env in (value t, next))
    report e headers result.error result.response_code (received result.chunks [])

  unfoldable pub transfer : Text → ℕ → Bool → Program Env (Bool × Text)
  unfolding append_all send
  transfer url e false = pure (true, [])
  transfer url e true = do
    emit (acquire curl_handle)
    emit (on_event e (inject_context client_request_headers))
    written ← ask (λ env. (value (injected env).0, (injected env).1))
    append_all written []
    send url e (written_headers written [])

  -- The work under the span event `e`.
  unfoldable pub fetch : Text → ℕ → Program Env (Bool × Text)
  unfolding transfer
  fetch url e = do ready ← ask (λ env. (value (init env).0, (init env).1)); transfer url e ready

  unfoldable pub perform_curl_request : Text → Option ℕ → Program Env (Bool × Text)
  unfolding fetch
  perform_curl_request url span = scoped span (lit "execute_curl") cpp_http_client (fetch url)

  -- The response, with the error that the span is told.
  unfoldable pub respond : ℕ → Response → Bool × Text → Program Env Response
  respond span res (true, body) = pure (
      set_content (lit "cURL request successful\nResponse body preview: " ++ take 200 body)
        (lit "text/plain") (record res { status = 200 }))
  respond span res (false, body) = do
    emit (on_span span (set_error (lit "cURL request failed")))
    pure (set_content (lit "cURL request failed") (lit "text/plain") (record res { status = 500 }))

  -- From `if (success)` to the end of the handler.
  unfoldable pub finish : ℕ → Request → Response → Bool × Text → Program Env Response
  unfolding respond
  finish span req res result = do
    done ← respond span res result
    emit (
        on_span span
          (trace_http_server_response req.matched_route req.method done.status response_headers))
    emit (end_span span)
    pure done

  -- The URL that is fetched.
  unfoldable pub target : Text → Request → Text
  target target_url req =
      if req.has_param (lit "url") then req.get_param_value (lit "url") else target_url

  -- `span` is the pointer that `NewSpan` returns.
  unfoldable pub handle_run_request : Text → ℕ → Handler Env
  unfolding perform_curl_request finish target
  handle_run_request target_url span req res = do
    emit (new_span span (lit "CurlWebExample") (lit "/run_request") (some request_headers))
    emit (
        on_span span (
          trace_http_server_request req.remote_addr (req.get_header_value (lit "Host"))
            request_headers))
    result ← perform_curl_request (target target_url req) (some span)
    finish span req res result
