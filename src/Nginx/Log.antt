-- ===== src/Nginx/Log.antt =====
-- `ngx_http_pinpoint_log_handler`: one span per completed main request. It always answers NGX_OK.
use pinpoint_cpp_examples.Common.{
  ℕ, ◌+◌, ◌*◌, ◌%◌, ◌^◌, ◌≡◌, ◌∙◌, Bool, not, ◌||◌, ◌&&◌, Option, some, List, [], ◌∷◌, ◌++◌, arith,
  Text, lit, ltb, ◌==◌, if◌then◌else◌, length,
}
use pinpoint_cpp_examples.Capi.{
  PtCall, set_start_time_ms, set_remote_address, set_end_point, set_acceptor_host, set_status_code,
  set_url_stat, new_span, on_span, end_span, destroy_span, run, run-append, no_span, in_span,
}
use pinpoint_cpp_examples.Nginx.Upstream.{
  UpstreamState, buffered, record_upstream, record_upstream-run,
}

-- What the handler reads of `ngx_http_request_t`. `is_main` is `r == r->main`.
pub record Request : Type 0 where
  pub is_main : Bool
  pub uri : Text
  pub method_name : Text
  pub addr_text : Text
  pub server : Text
  pub err_status : ℕ
  pub out_status : ℕ
  pub start_sec : ℕ
  pub start_msec : ℕ
  pub upstream_states : Option (List UpstreamState)

-- What the handler asks: `g_agent != NULL`, `pt_agent_is_enabled`, whether the agent makes a span, and
-- nginx's cached clock.
pub record Surroundings : Type 0 where
  pub has_agent : Bool
  pub is_enabled : Bool
  pub makes_span : Bool
  pub now_sec : ℕ
  pub now_msec : ℕ

-- `(int64_t) sec * 1000 + (int64_t) msec`.
unfoldable pub millis : ℕ → ℕ → ℕ
millis sec msec = (sec * 1000 + msec) % 2 ^ 64

-- `(int)` of `err_status`, or of the response's status when there is none.
unfoldable pub final_status : Request → ℕ
final_status r = (if r.err_status == 0 then r.out_status else r.err_status) % 2 ^ 32

endpoint_calls : Text → List PtCall
endpoint_calls server =
    if ltb 0 (length server)
    then on_span (set_end_point (buffered server 256))
      ∷ on_span (set_acceptor_host (buffered server 256))
      ∷ []
    else []

pub span_calls : Surroundings → Request → List PtCall
unfolding endpoint_calls final_status millis
span_calls s r =
    new_span (lit "NGINX") (buffered r.uri 1024) (buffered r.method_name 16)
    ∷ on_span (set_start_time_ms (millis r.start_sec r.start_msec))
    ∷ on_span (set_remote_address (buffered r.addr_text 128))
    ∷ (endpoint_calls r.server
        ++ on_span (set_status_code (final_status r))
          ∷ on_span
              (set_url_stat (buffered r.uri 1024) (buffered r.method_name 16) (final_status r))
          ∷ (record_upstream r.upstream_states r.uri (millis s.now_sec s.now_msec)
              ++ end_span ∷ destroy_span ∷ []))

unfoldable pub log_handler : Surroundings → Request → List PtCall
unfolding span_calls
log_handler s r =
    if not s.has_agent || not s.is_enabled
    then []
    else if not r.is_main
    then []
    else if not s.makes_span
    then []
    else span_calls s r

endpoint_calls-run : (server : Text) → run in_span (endpoint_calls server) ≡ some in_span
unfolding endpoint_calls run
endpoint_calls-run server = ground arith

span_calls-run : (s : Surroundings) (r : Request) → run no_span (span_calls s r) ≡ some no_span
unfolding span_calls run
span_calls-run s r =
    let upstream = record_upstream r.upstream_states r.uri (millis s.now_sec s.now_msec) in
    let method = buffered r.method_name 16 in
    let closing : List PtCall = end_span ∷ destroy_span ∷ [] in
    let after =
      on_span (set_status_code (final_status r))
      ∷ on_span (set_url_stat (buffered r.uri 1024) method (final_status r))
      ∷ (upstream ++ closing) in
    run-append in_span in_span (endpoint_calls r.server) after (endpoint_calls-run r.server)
    ∙ run-append in_span in_span upstream closing (record_upstream-run r.upstream_states r.uri _)

-- The four conditions under which a request is traced.
abbrev pub is_traced : Surroundings → Request → Bool
is_traced s r = s.has_agent && s.is_enabled && r.is_main && s.makes_span

-- For every request the handler's calls follow the order of the interface: no span, or one that is
-- ended and destroyed, and so for its event. There is one exactly if the worker has an agent that is
-- enabled, the request is a main request and the agent makes a span.
pub log_handler-run :
    (s : Surroundings) (r : Request)
    → (run no_span (log_handler s r) ≡ some no_span)
      × (log_handler s r ≡ (if is_traced s r then span_calls s r else []))
unfolding log_handler run
log_handler-run s r = ground (arith, span_calls-run s r)
