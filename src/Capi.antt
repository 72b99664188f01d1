-- ===== src/Capi.antt =====
-- The calls that the C examples make on the agent (`pinpoint/tracer_c.h`), as data, and the order in
-- which the interface wants them: what is created is ended and then destroyed, events before their span.
-- Each example has one span and one event at a time, so the calls carry no handle. Numbers are the bit
-- patterns of the C integers.
use pinpoint_cpp_examples.Common.{
  ℕ, ◌≡◌, Option, none, some, List, [], ◌∷◌, ◌++◌, arith, Text, Option-cases, inl, inr,
}

pub data SpanOp : Type 0 where
  set_start_time_ms : ℕ → SpanOp
  set_remote_address : Text → SpanOp
  set_end_point : Text → SpanOp
  set_acceptor_host : Text → SpanOp
  set_status_code : ℕ → SpanOp
  set_url_stat : Text → Text → ℕ → SpanOp
  trace_http_server_request : Text → Text → SpanOp
  trace_http_server_response : Text → Text → ℕ → List (Text × Text) → SpanOp

pub data EventOp : Type 0 where
  set_start_time_ms : ℕ → EventOp
  set_end_point : Text → EventOp
  set_destination : Text → EventOp
  set_url_annotation : Text → EventOp
  set_status_annotation : ℕ → EventOp

-- The service types that the C examples name.
pub data PtServiceType : Type 0 where
  default_type : PtServiceType
  cpp_http_client : PtServiceType

pub data PtCall : Type 0 where
  new_span : Text → Text → Text → PtCall
  new_span_with_reader : Text → Text → PtCall
  on_span : SpanOp → PtCall
  new_event : Text → PtServiceType → PtCall
  on_event : EventOp → PtCall
  end_event : PtCall
  destroy_event : PtCall
  end_span : PtCall
  destroy_span : PtCall

pub data Phase : Type 0 where
  no_span : Phase
  in_span : Phase
  in_event : Phase
  event_ended : Phase
  span_ended : Phase

unfoldable pub step : Phase → PtCall → Option Phase
step no_span (new_span app name method) = some in_span
step no_span (new_span_with_reader operation rpc_point) = some in_span
step in_span (on_span op) = some in_span
step in_span (new_event name type) = some in_event
step in_event (on_event op) = some in_event
step in_event end_event = some event_ended
step event_ended destroy_event = some in_span
step in_span end_span = some span_ended
step span_ended destroy_span = some no_span
step _ _ = none

infixl 5 ◌>>=◌
abbrev ◌>>=◌ : Option Phase → (Phase → Option Phase) → Option Phase
none >>= f = none
some p >>= f = f p

unfoldable pub run : Phase → List PtCall → Option Phase
unfolding step
run p [] = some p
run p (c ∷ cs) = step p c >>= λ q. run q cs

pub run-append :
    (p q : Phase) (xs ys : List PtCall) → run p xs ≡ some q → run p (xs ++ ys) ≡ run q ys
unfolding run
run-append p q [] ys h = ground arith
run-append p q (x ∷ xs) ys h = elim (Option-cases (step p x)) [
  | inl e ↦ cc
  | inr (t, e) ↦ rw (e, ◌>>=◌) (run-append t q xs ys (rw e at h))
]
