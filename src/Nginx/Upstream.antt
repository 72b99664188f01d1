-- ===== src/Nginx/Upstream.antt =====
-- `ngx_http_pinpoint_record_upstream`: the upstream tries of a request as one span event.
use pinpoint_cpp_examples.Common.{
  c_string, ℕ, ◌+◌, ◌-◌, ◌%◌, ◌^◌, ◌≤◌, ◌<◌, ◌≡◌, refl, Option, none, some, List, [], ◌∷◌, ◌++◌,
  arith, Text, lit, ◌==◌, if◌then◌else◌,
}
use pinpoint_cpp_examples.Capi.{
  PtCall, cpp_http_client, set_start_time_ms, set_end_point, set_destination, set_url_annotation,
  set_status_annotation, new_event, on_event, end_event, destroy_event, run, in_span,
}
use pinpoint_cpp_examples.Nginx.CString.{to_cstr}

-- `ngx_http_upstream_state_t`: one try. `response_time` is unsigned and -1 means that no response was
-- timed.
pub record UpstreamState : Type 0 where
  pub peer : Option Text
  pub response_time : ℕ
  pub status : ℕ

abbrev pub untimed : ℕ
untimed = 2 ^ 64 - 1

-- `total += (int64_t) state[i].response_time`, over the tries in order.
unfoldable pub total_time : ℕ → List UpstreamState → ℕ
total_time total [] = total
total_time total (state ∷ states) =
    total_time
      (if state.response_time == untimed then total else (total + state.response_time) % 2 ^ 64)
      states

-- `a - b` on `int64_t`.
unfoldable pub sub64 : ℕ → ℕ → ℕ
sub64 a b = (a + 2 ^ 64 - b) % 2 ^ 64

-- `&state[nelts - 1]`.
unfoldable pub last_state : UpstreamState → List UpstreamState → UpstreamState
last_state state [] = state
last_state state (next ∷ states) = last_state next states

-- A C string in a buffer of `size` bytes.
abbrev pub buffered : Text → ℕ → Text
buffered s size = c_string (to_cstr s size)

unfoldable pub peer_calls : Option Text → List PtCall
peer_calls none = []
peer_calls (some peer) =
    on_event (set_end_point (buffered peer 256))
    ∷ on_event (set_destination (buffered peer 256))
    ∷ []

unfoldable pub status_calls : ℕ → List PtCall
status_calls status =
    if status == 0 then [] else on_event (set_status_annotation (status % 2 ^ 32)) ∷ []

record_states : UpstreamState → List UpstreamState → Text → ℕ → List PtCall
unfolding peer_calls status_calls
record_states state states uri end_ms =
    let last = last_state state states in
    new_event (lit "upstream") cpp_http_client
    ∷ on_event (set_start_time_ms (sub64 end_ms (total_time 0 (state ∷ states))))
    ∷ (peer_calls last.peer
        ++ on_event (set_url_annotation (buffered uri 1024))
          ∷ (status_calls last.status ++ end_event ∷ destroy_event ∷ []))

-- `none` is a null `upstream_states`.
unfoldable pub record_upstream : Option (List UpstreamState) → Text → ℕ → List PtCall
unfolding record_states
record_upstream none uri end_ms = []
record_upstream (some []) uri end_ms = []
record_upstream (some (state ∷ states)) uri end_ms = record_states state states uri end_ms

-- The upstream time of a request: the sum of what was timed.
abbrev pub timed : List UpstreamState → ℕ
timed [] = 0
timed (state ∷ states) =
    (if state.response_time == untimed then 0 else state.response_time) + timed states

total_time-timed :
    (total : ℕ) (states : List UpstreamState)
    → total + timed states < 2 ^ 64
    → total_time total states ≡ total + timed states
unfolding total_time
total_time-timed total [] h = omega arith
total_time-timed total (state ∷ states) h = ground (
  arith,
  total_time-timed total states,
  total_time-timed ((total + state.response_time) % 2 ^ 64) states,
)

total_time_lem :
    (states : List UpstreamState) → timed states < 2 ^ 64 → total_time 0 states ≡ timed states
total_time_lem states h = omega (arith, total_time-timed 0 states (omega arith))

last_state-append :
    (state last : UpstreamState) (states : List UpstreamState)
    → last_state state (states ++ last ∷ []) ≡ last
unfolding last_state
last_state-append state last [] = refl
last_state-append state last (next ∷ states) = last_state-append next last states

sub64_lem : (a b : ℕ) → b ≤ a → a < 2 ^ 64 → sub64 a b ≡ a - b
unfolding sub64
sub64_lem a b h k = omega arith

-- The calls for a last try and an event that starts at `start`.
abbrev pub event_calls : UpstreamState → Text → ℕ → List PtCall
event_calls last uri start =
    new_event (lit "upstream") cpp_http_client
    ∷ on_event (set_start_time_ms start)
    ∷ (peer_calls last.peer
        ++ on_event (set_url_annotation (buffered uri 1024))
          ∷ (status_calls last.status ++ end_event ∷ destroy_event ∷ []))

record_states-event :
    (state : UpstreamState) (states : List UpstreamState) (last : UpstreamState) (uri : Text)
    (end_ms : ℕ)
    → last_state state states ≡ last
    → timed (state ∷ states) ≤ end_ms
    → end_ms < 2 ^ 64
    → record_states state states uri end_ms ≡ event_calls last uri (end_ms - timed (state ∷ states))
unfolding record_states
record_states-event state states last uri end_ms e h k = rw (
  e,
  total_time_lem (state ∷ states) (omega arith),
  sub64_lem end_ms (timed (state ∷ states)) h k,
)

-- However many tries a proxied request took, it is recorded as one event: the event starts before
-- `end_ms` by exactly the time of all tries that were timed, and shows the peer and the status of the last
-- try. The tries together took no longer than the clock shows, and the clock fits 63 bits.
pub record_upstream-event :
    (states : List UpstreamState) (last : UpstreamState) (uri : Text) (end_ms : ℕ)
    → timed (states ++ last ∷ []) ≤ end_ms
    → end_ms < 2 ^ 63
    → record_upstream (some (states ++ last ∷ [])) uri end_ms
      ≡ event_calls last uri (end_ms - timed (states ++ last ∷ []))
unfolding record_upstream
record_upstream-event [] last uri end_ms h k =
    record_states-event last [] last uri end_ms (unfold last_state in refl) h (omega arith)
record_upstream-event (state ∷ states) last uri end_ms h k =
    record_states-event state (states ++ last ∷ []) last uri end_ms
      (last_state-append state last states) h (omega arith)

record_states-run :
    (state : UpstreamState) (states : List UpstreamState) (uri : Text) (end_ms : ℕ)
    → run in_span (record_states state states uri end_ms) ≡ some in_span
unfolding record_states run
record_states-run state states uri end_ms =
    parts (last_state state states).peer (last_state state states).status
  where
    parts :
        (peer : Option Text) (status : ℕ)
        → run in_span (
            new_event (lit "upstream") cpp_http_client
            ∷ on_event (set_start_time_ms (sub64 end_ms (total_time 0 (state ∷ states))))
            ∷ (peer_calls peer
                ++ on_event (set_url_annotation (buffered uri 1024))
                  ∷ (status_calls status ++ end_event ∷ destroy_event ∷ [])))
          ≡ some in_span
    parts none status = ground arith
    parts (some p) status = ground arith

-- Recording the upstream leaves the span as it was: no event is created, or one that is ended and
-- destroyed.
pub record_upstream-run :
    (states : Option (List UpstreamState)) (uri : Text) (end_ms : ℕ)
    → run in_span (record_upstream states uri end_ms) ≡ some in_span
unfolding record_upstream run
record_upstream-run none uri end_ms = refl
record_upstream-run (some []) uri end_ms = refl
record_upstream-run (some (state ∷ states)) uri end_ms = record_states-run state states uri end_ms
