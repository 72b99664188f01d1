-- ===== src/Tests/Nginx.antt =====
-- The nginx module on small configurations and requests.
use pinpoint_cpp_examples.Common.{
  c_string, ◌-◌, ◌≤◌, ◌≡◌, refl, true, some, [], ◌∷◌, ◌++◌, arith, lit, length, take, flatten,
  text_eq, if◌then◌else◌,
}
use pinpoint_cpp_examples.Capi.{run, no_span}
use pinpoint_cpp_examples.Nginx.CString.{to_cstr, to_cstr-fits}
use pinpoint_cpp_examples.Nginx.Headers.{
  Header, Comparison, folded, header_get, first_named, lookup_of, header_get-first_named,
}
use pinpoint_cpp_examples.Nginx.Upstream.{
  UpstreamState, untimed, record_upstream, event_calls, timed, record_upstream-event,
}
use pinpoint_cpp_examples.Nginx.Log.{
  Request, Surroundings, log_handler, span_calls, is_traced, log_handler-run,
}
use pinpoint_cpp_examples.Nginx.Worker.{on, MainConf, Answers, run as run_agent}

to_cstr-fits_example :
    (length (to_cstr (lit "PROPFIND") 5) ≤ 5)
    × (c_string (to_cstr (lit "PROPFIND") 5) ≡ take 4 (lit "PROPFIND"))
unfolding lit
to_cstr-fits_example = to_cstr-fits (lit "PROPFIND") 5 (omega arith) (omega arith) (ground arith)

-- A comparison in place of nginx's.
abbrev strncasecmp : Comparison
strncasecmp s t n = text_eq (folded s) (folded t)

abbrev host : Header
host = record { key = lit "Host"; value = lit "localhost" }

abbrev trace_id : Header
trace_id = record { key = lit "Pinpoint-TraceID"; value = lit "agent^1^2" }

header_get-first_named_example :
    header_get strncasecmp (host ∷ []) ((trace_id ∷ []) ∷ []) (lit "pinpoint-traceid")
    ≡ lookup_of
        (first_named (lit "pinpoint-traceid") ((host ∷ []) ++ flatten ((trace_id ∷ []) ∷ [])))
header_get-first_named_example =
    header_get-first_named strncasecmp (λ s t n h k. refl) (host ∷ []) ((trace_id ∷ []) ∷ [])
      (lit "pinpoint-traceid") ((λ h. cc), tt)

-- A peer that gave no answer, and one that answered after 30 ms.
abbrev refused : UpstreamState
refused = record { peer = some (lit "10.0.0.1:80"); response_time = untimed; status = 502 }

abbrev answered : UpstreamState
answered = record { peer = some (lit "10.0.0.2:80"); response_time = 30; status = 200 }

record_upstream-event_example :
    record_upstream (some ((refused ∷ []) ++ answered ∷ [])) (lit "/api") 1000
    ≡ event_calls answered (lit "/api") (1000 - timed ((refused ∷ []) ++ answered ∷ []))
record_upstream-event_example =
    record_upstream-event (refused ∷ []) answered (lit "/api") 1000 (omega arith) (omega arith)

abbrev get_api : Request
get_api = record {
  is_main = true;
  uri = lit "/api";
  method_name = lit "GET";
  addr_text = lit "10.0.0.9";
  server = lit "example.org";
  err_status = 0;
  out_status = 200;
  start_sec = 1;
  start_msec = 500;
  upstream_states = some (refused ∷ answered ∷ []);
}

abbrev tracing : Surroundings
tracing = record {
  has_agent = true;
  is_enabled = true;
  makes_span = true;
  now_sec = 2;
  now_msec = 0;
}

log_handler-run_example :
    (run no_span (log_handler tracing get_api) ≡ some no_span)
    × (log_handler tracing get_api
        ≡ (if is_traced tracing get_api then span_calls tracing get_api else []))
log_handler-run_example = log_handler-run tracing get_api

abbrev enabled_conf : MainConf
enabled_conf = record { enable = on; config_file = lit "/etc/pinpoint.yaml" }

abbrev pub willing : Answers
willing = record {
  conf = some enabled_conf;
  has_options = true;
  starts = true;
  has_global = true;
  nginx_version = lit "1.27.4";
}
