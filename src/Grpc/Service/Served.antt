-- ===== src/Grpc/Service/Served.antt =====
-- What the service answers, and a call to it under the server interceptor.
use pinpoint_cpp_examples.Common.{
  ℕ, ◌≡◌, refl, sym, ap, ◌∙◌, true, Option, none, some, List, [], ◌∷◌, ◌++◌, append-nil,
  append_assoc, Text, lit,
}
use pinpoint_cpp_examples.Common.Decimal.{to_string}
use pinpoint_cpp_examples.Trace.{Call}
use pinpoint_cpp_examples.Trace.Program.{Run, returned, ask}
use pinpoint_cpp_examples.Trace.Protocol.{closed, open_span, run, run-append}
use pinpoint_cpp_examples.Trace.Does.{
  Does, Does-pure, Does-bind, Does-scoped, Does-get_span_context, Does-to,
}
use pinpoint_cpp_examples.Grpc.Server.{
  Batch, RpcInfo, Interceptor, intercept, intercept_all, intercept-run, intercept_all-run, standing,
  on_status,
}
use pinpoint_cpp_examples.Grpc.Service.{
  StreamAct, got, sent, Wire, ok_status, Returned, over_stream, write_loop, combine_loop, echo_loop,
  Rpc, call_unary_unary, call_unary_stream, call_stream_unary, call_stream_stream, method_of,
  unary_unary, unary_stream, stream_unary, stream_stream,
}

abbrev pub echoes : List Text → Wire
echoes [] = []
echoes (request ∷ requests) = got request ∷ sent (lit "Echo: " ++ request) ∷ echoes requests

abbrev pub reads : List Text → Wire
reads [] = []
reads (msg ∷ msgs) = got msg ∷ reads msgs

-- Each message with a space behind it.
abbrev pub spaced : List Text → Text
spaced [] = []
spaced (msg ∷ msgs) = (msg ++ lit " ") ++ spaced msgs

abbrev streamed : Text → Text → StreamAct
streamed i request = sent (lit "Stream response " ++ (i ++ (lit ": " ++ request)))

-- What goes over the stream of a call, and its response.
abbrev pub stream_of : Rpc → Wire
stream_of (call_unary_unary request) = []
stream_of (call_unary_stream request) =
    streamed (to_string 0) request
    ∷ streamed (to_string 1) request
    ∷ streamed (to_string 2) request
    ∷ []
stream_of (call_stream_unary msgs) = reads msgs
stream_of (call_stream_stream requests) = echoes requests

abbrev pub response_of : Rpc → Option Text
response_of (call_unary_unary request) = some (lit "Unary response: " ++ request)
response_of (call_unary_stream request) = none
response_of (call_stream_unary msgs) = some (lit "Unary response: " ++ spaced msgs)
response_of (call_stream_stream requests) = none

-- One more act, with more to come.
put : (v : Wire) (act : StreamAct) (acts : Wire) → (v ++ act ∷ []) ++ acts ≡ v ++ act ∷ acts
put v act acts = append_assoc v (act ∷ []) acts

module _ {s d : ℕ} where
  over_stream_lem : (act : StreamAct) {v : Wire} → Does s d (over_stream act) v tt (v ++ act ∷ [])
  unfolding over_stream ask run
  over_stream_lem act = record { at = (refl, refl, refl) }

  echo_loop-Does :
      (requests : List Text) (v : Wire) → Does s d (echo_loop requests) v tt (v ++ echoes requests)
  unfolding echo_loop
  echo_loop-Does [] v = Does-to (sym (append-nil v)) (Does-pure tt)
  echo_loop-Does (request ∷ requests) v =
      let echo = sent (lit "Echo: " ++ request) in
      Does-bind _ (over_stream_lem (got request)) (
        Does-bind _ (over_stream_lem echo) (
          Does-to
            (put (v ++ got request ∷ []) echo (echoes requests)
              ∙ put v (got request) (echo ∷ echoes requests))
            (echo_loop-Does requests ((v ++ got request ∷ []) ++ echo ∷ []))))

  combine_loop-Does :
      (msgs : List Text) (combined : Text) (v : Wire)
      → Does s d (combine_loop msgs combined) v (combined ++ spaced msgs) (v ++ reads msgs)
  unfolding combine_loop
  combine_loop-Does [] combined v =
      rw (append-nil combined) (Does-to (sym (append-nil v)) (Does-pure combined))
  combine_loop-Does (msg ∷ msgs) combined v = Does-bind _ (over_stream_lem (got msg)) (
      Does-to (put v (got msg) (reads msgs)) (
        rw (append_assoc combined (msg ++ lit " ") (spaced msgs)) at
          (combine_loop-Does msgs (combined ++ (msg ++ lit " ")) (v ++ got msg ∷ []))))

  write_loop-Does :
      (request : Text) (v : Wire)
      → Does s d (write_loop request 3 0) v tt (v ++ stream_of (call_unary_stream request))
  unfolding write_loop
  write_loop-Does request v =
      let second = streamed (to_string 1) request in
      let third = streamed (to_string 2) request in
      let first = streamed (to_string 0) request in
      Does-bind _ (over_stream_lem first) (
        Does-bind _ (over_stream_lem second) (
          Does-bind _ (over_stream_lem third) (
            Does-to (put (v ++ first ∷ []) second (third ∷ []) ∙ put v first (second ∷ third ∷ []))
              (Does-pure tt))))

module _ {s d : ℕ} where
  method-Does :
      (rpc : Rpc) (v : Wire)
      → Does s d (method_of rpc) v (ok_status, response_of rpc) (v ++ stream_of rpc)
  unfolding method_of unary_unary unary_stream stream_unary stream_stream
  method-Does (call_unary_unary request) v =
      Does-get_span_context _ (Does-scoped _ _ _ (Does-to (sym (append-nil v)) (Does-pure _)))
  method-Does (call_unary_stream request) v =
      Does-get_span_context _
        (Does-scoped _ _ _ (Does-bind _ (write_loop-Does request v) (Does-pure _)))
  method-Does (call_stream_unary msgs) v =
      Does-get_span_context _
        (Does-scoped _ _ _ (Does-bind _ (combine_loop-Does msgs [] v) (Does-pure _)))
  method-Does (call_stream_stream requests) v =
      Does-get_span_context _
        (Does-scoped _ _ _ (Does-bind _ (echo_loop-Does requests v) (Does-pure _)))

span_gone :
    (info : RpcInfo) (last : Batch) (i : Interceptor)
    → last.pre_send_status ≡ true
    → (intercept info last i).1.span ≡ none
unfolding intercept on_status
span_gone info last i e = rw e refl

-- The batch that sends the status ends the span that the interceptor holds.
last-run :
    (info : RpcInfo) (last : Batch) (i : Interceptor) (s : ℕ)
    → i.span ≡ some s
    → last.pre_send_status ≡ true
    → run (open_span s 0) (intercept info last i).0 ≡ some closed
last-run info last i s h e =
    ap (λ o. run (standing o) (intercept info last i).0) (sym h)
    ∙ intercept-run info last i
    ∙ ap (λ o. some (standing o)) (span_gone info last i e)

-- A whole call: batches that make the span, the method, and batches up to the one that sends the status.
-- Between them the interceptor's span is the thread's.
abbrev pub call_log : RpcInfo → List Batch → Batch → Interceptor → Run Wire Returned → List Call
call_log info batches last fresh r =
    let before = intercept_all info batches fresh in
    before.0 ++ (r.log ++ (intercept info last before.1).0)

module _ (info : RpcInfo) (rpc : Rpc) (s : ℕ) (batches : List Batch) (last : Batch)
    (current : Option ℕ) where
  -- A call to the service for which the agent makes a span is answered with the status OK and the response
  -- that the greeting service gives to what its client sends: the one message, three numbered messages, all
  -- messages joined, or an echo of each message before the next is read. The calls of the interceptor and the
  -- method together keep to the discipline of spans, and with the batch that sends the status the span has
  -- ended with no event open.
  pub hello_call-Served :
      let fresh : Interceptor = record { span = none; current = current } in
      let before = intercept_all info batches fresh in
      before.1.span ≡ some s
      → before.1.current ≡ some s
      → last.pre_send_status ≡ true
      → let r = method_of rpc 0 (record { current = before.1.current; env = [] }) in
        (r.out ≡ returned (ok_status, response_of rpc))
        × (r.world.env ≡ stream_of rpc)
        × (run closed (call_log info batches last fresh r) ≡ some closed)
  hello_call-Served h k e =
      let before = intercept_all info batches (record { span = none; current = current }) in
      let (ended, world, kept) = (method-Does rpc []).at in
      rw k (
        ended,
        ap (λ w. w.env) world,
        run-append closed (open_span s 0) before.0 _ (
              intercept_all-run info batches (record { span = none; current = current })
              ∙ ap (λ o. some (standing o)) h)
            ∙ run-append _ (open_span s 0) _ _ kept
            ∙ last-run info last before.1 s h e,
      )
