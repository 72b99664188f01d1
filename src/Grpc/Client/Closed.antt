-- ===== src/Grpc/Client/Closed.antt =====
-- What the client interceptor leaves behind after a call.
use pinpoint_cpp_examples.Common.{
  ℕ, suc, ◌≡◌, refl, ap, ◌∙◌, ◌⊎◌, inl, inr, true, false, Bool-cases, Option, none, some, List, [],
  ◌∷◌, ◌++◌, append-nil, arith,
}
use pinpoint_cpp_examples.Trace.Protocol.{open_span, run, run-append, run-nil}
use pinpoint_cpp_examples.Trace.{Call, end_event}
use pinpoint_cpp_examples.Grpc.Server.{Status}
use pinpoint_cpp_examples.Grpc.Client.{
  ClientInfo, Batch, Interceptor, inject_calls, event_calls, begun, on_send, error_calls, finished,
  on_receive, both, intercept, joined, follow, unary_call,
}

-- Where a call stands after some of its calls to the agent: with no event, or with the event `d` open.
abbrev pub Reached : ℕ → ℕ → List Call × Interceptor → Type 0
Reached s d r =
    ((run (open_span s d) r.0 ≡ some (open_span s d)) × (r.1.span_event ≡ none))
    ⊎ ((run (open_span s d) r.0 ≡ some (open_span s (suc d)))
        × (r.1.span_event ≡ some d)
        × (r.1.parent_span ≡ some s))

event_calls-run :
    (info : ClientInfo) (s d : ℕ)
    → run (open_span s d) (event_calls info s d) ≡ some (open_span s (suc d))
unfolding event_calls inject_calls run
event_calls-run info s d = ground arith

error_calls-run :
    (status : Option Status) (s d : ℕ)
    → run (open_span s (suc d)) (error_calls d status ++ end_event d ∷ []) ≡ some (open_span s d)
unfolding error_calls run
error_calls-run none s d = ground arith
error_calls-run (some status) s d = ground arith

pub begun-Reached :
    (info : ClientInfo) (batch : Batch) (s d : ℕ) → Reached s d (begun info batch s d)
unfolding begun
begun-Reached info batch s d = elim (Bool-cases batch.makes_event) [
  | inl e ↦ rw e (inr (event_calls-run info s d, refl, refl))
  | inr e ↦ rw e (inl (run-nil _, refl))
]

pub finished-Closed :
    (status : Option Status) (s d : ℕ) (calls : List Call) (i : Interceptor)
    → Reached s d (calls, i)
    → (run (open_span s d) (calls ++ (finished status i).0) ≡ some (open_span s d))
      × ((finished status i).1.span_event ≡ none)
unfolding finished
finished-Closed status s d calls i (inl (h, e)) = rw (e, append-nil calls) (h, refl)
finished-Closed status s d calls i (inr (h, e, p)) =
    rw (e, p) (run-append _ (open_span s (suc d)) calls _ h ∙ error_calls-run status s d, refl)

pub on_receive-Reached :
    (batch : Batch) (s d : ℕ) (calls : List Call) (i : Interceptor)
    → Reached s d (calls, i)
    → Reached s d (calls ++ (on_receive batch i).0, (on_receive batch i).1)
unfolding on_receive
on_receive-Reached batch s d calls i h = elim (Bool-cases batch.post_recv_status) [
  | inl e ↦ rw e (inl (finished-Closed batch.recv_status s d calls i h))
  | inr e ↦ rw (e, append-nil calls) h
]

pub intercept_send :
    (info : ClientInfo) (batch : Batch) (s d : ℕ) (i : Interceptor)
    → batch.pre_send_initial_metadata ≡ true
    → intercept info batch (some s) d i ≡ both batch (some (begun info batch s d))
unfolding intercept on_send
intercept_send info batch s d i h = rw h refl

intercept_receive :
    (info : ClientInfo) (batch : Batch) (s d : ℕ) (i : Interceptor)
    → batch.pre_send_initial_metadata ≡ false
    → batch.post_recv_status ≡ true
    → intercept info batch (some s) d i ≡ some (finished batch.recv_status i)
unfolding intercept on_send both on_receive
intercept_receive info batch s d i h k = rw (h, k) refl

-- A call made on a thread whose span is `s` leaves that span as it found it: the event is opened in the
-- batch that sends the metadata and closed in the one that receives the status, or there was none because
-- the agent made none. The interceptor holds no event afterwards, and no null pointer is used.
unary_call-Closed :
    (info : ClientInfo) (send receive : Batch) (s d : ℕ)
    → send.pre_send_initial_metadata ≡ true
    → receive.pre_send_initial_metadata ≡ false
    → receive.post_recv_status ≡ true
    → (r : List Call × Interceptor) × (unary_call info send receive (some s) d ≡ some r)
      × (run (open_span s d) r.0 ≡ some (open_span s d))
      × (r.1.span_event ≡ none)
unfolding unary_call follow both joined
unary_call-Closed info send receive s d h k e =
    let fresh : Interceptor = record { parent_span = none; span_event = none } in
    let start = begun info send s d in
    let calls = start.0 ++ (on_receive send start.1).0 in
    let i = (on_receive send start.1).1 in
    let reached = on_receive-Reached send s d start.0 start.1 (begun-Reached info send s d) in
    let ended = finished-Closed receive.recv_status s d calls i reached in
    (
      (calls ++ (finished receive.recv_status i).0, (finished receive.recv_status i).1),
      ap (follow info receive (some s) d) (intercept_send info send s d fresh h)
          ∙ ap (joined calls) (intercept_receive info receive s d i k e),
      ended.0,
      ended.1,
    )
