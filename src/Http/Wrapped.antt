-- ===== src/Http/Wrapped.antt =====
-- What a wrapped handler leaves behind.
use pinpoint_cpp_examples.Common.{
  ℕ, ◌≡◌, refl, ap, ◌∙◌, Option, none, some, List, [], ◌∷◌, ◌++◌, arith, Text, ==_refl, append-nil,
}
use pinpoint_cpp_examples.Trace.{
  Call, EventOp, request_headers, response_headers, new_span, on_span, end_span,
  trace_http_server_request, trace_http_server_response,
}
use pinpoint_cpp_examples.Trace.Program.{
  Exception, Run, World, Outcome, returned, thrown, fault, ◌>>=◌, ◌>>◌, continue, pure,
  set_span_context,
}
use pinpoint_cpp_examples.Trace.Protocol.{
  closed, open_span, run, step, run-cons, run-nil, run-append,
}
use pinpoint_cpp_examples.Trace.Balanced.{IsBalanced, Keeps}
use pinpoint_cpp_examples.Trace.Shows.{seen, seen-append}
use pinpoint_cpp_examples.Http.{Request, Response, Handler, end_point, trace_response, wrap_handler}

-- The span has ended with no event open, and the thread has no span.
abbrev pub Ended : {W : Type 0} → Run W Response → Type 0
Ended r = (run closed r.log ≡ some closed) × (r.world.current ≡ none)

-- The thread's span is gone and the span has ended, unless an exception came out: then both are left.
abbrev pub Left : {W : Type 0} → ℕ → Run W Response → Outcome Response → Type 0
Left s r (returned a) = (run closed r.log ≡ some closed) × (r.world.current ≡ none)
Left s r (thrown e) = (run closed r.log ≡ some (open_span s 0)) × (r.world.current ≡ some s)
Left s r fault = ⊥

-- `trace_response`.
abbrev pub goodbye_calls : ℕ → Request → Response → List Call
goodbye_calls s req res =
    on_span s (trace_http_server_response req.matched_route req.method res.status response_headers)
    ∷ end_span s
    ∷ []

module _ (app : Text) (s : ℕ) (req : Request) where
  -- The calls of a request whose handler made the calls `inner` and answered with `res`.
  abbrev pub request_log : Response → List Call → List Call
  request_log res inner =
      new_span s app req.path (some request_headers)
      ∷ on_span s (trace_http_server_request req.remote_addr (end_point req) request_headers)
      ∷ (inner ++ goodbye_calls s req res)

module _ {W : Type 0} (I : W → Type 0) (app : Text) (s : ℕ) (req : Request) where
  leave : Response → World W → Run W Response
  unfolding ◌>>=◌ trace_response
  leave done = (trace_response req done s >> (set_span_context none >> pure done)) 0

  enter : Run W Response → Run W Response
  enter r = record r {
    log =
        new_span s app req.path (some request_headers)
        ∷ on_span s (trace_http_server_request req.remote_addr (end_point req) request_headers)
        ∷ r.log;
  }

  enter_lem :
      (cs : List Call)
      → run closed (
          new_span s app req.path (some request_headers)
          ∷ on_span s (trace_http_server_request req.remote_addr (end_point req) request_headers)
          ∷ cs)
        ≡ run (open_span s 0) cs
  unfolding step
  enter_lem cs =
      run-cons closed (open_span s 0) _ _ refl ∙ run-cons _ (open_span s 0) _ _ (rw (==_refl s))

  goodbye : (res : Response) → run (open_span s 0) (goodbye_calls s req res) ≡ some closed
  unfolding step
  goodbye res =
      run-cons (open_span s 0) (open_span s 0) _ _ (rw (==_refl s))
      ∙ run-cons (open_span s 0) closed _ _ (rw (==_refl s))
      ∙ run-nil closed

  leave-Left :
      (o : Outcome Response) (log : List Call) (w : World W)
      → Keeps I s 0 (record { log = log; out = o; world = w })
      → Left s (enter (continue o log w leave)) o
  unfolding leave enter run step
  leave-Left (returned a) log w h = (
    enter_lem (log ++ (goodbye_calls s req a))
        ∙ run-append _ (open_span s 0) log (goodbye_calls s req a) h.0
        ∙ goodbye a,
    refl,
  )
  leave-Left (thrown e) log w h = (enter_lem log ∙ h.0, h.1)
  leave-Left fault log w h = absurd h.3

  leave-log :
      (o : Outcome Response) (log : List Call) (w : World W) (done : Response)
      → o ≡ returned done
      → ((enter (continue o log w leave)).log ≡ request_log app s req done log)
        × ((enter (continue o log w leave)).out ≡ returned done)
  unfolding leave enter
  leave-log (returned a) log w done e = ground arith
  leave-log (thrown x) log w done e = cc
  leave-log fault log w done e = cc

  leave-thrown :
      (o : Outcome Response) (log : List Call) (w : World W) (x : Exception)
      → o ≡ thrown x
      → ((enter (continue o log w leave)).log
          ≡ (enter (record { log = log; out = o; world = w })).log)
        × ((enter (continue o log w leave)).out ≡ thrown x)
  unfolding leave enter
  leave-thrown (returned a) log w x e = cc
  leave-thrown (thrown y) log w x e = (refl, e)
  leave-thrown fault log w x e = cc

module _ {W : Type 0} (I : W → Type 0) (app : Text) (s : ℕ) (handler : Handler W) (req : Request)
    (res : Response) (w : World W) where
  -- A handler that keeps the span's events balanced leaves no span behind: when it returns, the span has
  -- ended with every event closed and the thread's span is cleared. When it throws, the exception passes
  -- through the wrapper, the span is never ended and stays the thread's span.
  pub wrap_handler-Left :
      IsBalanced I s 0 (handler req res)
      → I w.env
      → Left s
          (wrap_handler app s handler req res 0 w)
          (handler req res 0 (record w { current = some s })).out
  unfolding wrap_handler leave enter
  wrap_handler-Left h i = leave-Left I app s req _ _ _ (h.at (record w { current = some s }) refl i)

  -- A request whose handler returns makes the same calls in the same order: the span is created for the
  -- path, the request is recorded, the handler's calls follow, the response is recorded with the status
  -- that the handler set, and the span ends.
  pub wrap_handler-log :
      (done : Response)
      → (handler req res 0 (record w { current = some s })).out ≡ returned done
      → let r = wrap_handler app s handler req res 0 w in
        (r.log ≡ request_log app s req done (handler req res 0 (record w { current = some s })).log)
        × (r.out ≡ returned done)
  unfolding wrap_handler leave enter
  wrap_handler-log done e = leave-log I app s req _ _ _ done e

  pub wrap_handler-Ended :
      (done : Response)
      → IsBalanced I s 0 (handler req res)
      → I w.env
      → (handler req res 0 (record w { current = some s })).out ≡ returned done
      → Ended (wrap_handler app s handler req res 0 w)
  wrap_handler-Ended done h i e = rw e at (wrap_handler-Left h i)

  pub seen-wrap_handler :
      {X : Type 0} (view : EventOp → Option X) (done : Response)
      → (handler req res 0 (record w { current = some s })).out ≡ returned done
      → seen view (wrap_handler app s handler req res 0 w).log
        ≡ seen view (handler req res 0 (record w { current = some s })).log
  unfolding seen
  seen-wrap_handler view done e = rw (wrap_handler-log done e).0 (
      seen-append view (handler req res 0 (record w { current = some s })).log
        (goodbye_calls s req done)
      ∙ append-nil _)

  wrap_handler-thrown :
      (x : Exception)
      → IsBalanced I s 0 (handler req res)
      → I w.env
      → (handler req res 0 (record w { current = some s })).out ≡ thrown x
      → let r = wrap_handler app s handler req res 0 w in
        (run closed r.log ≡ some (open_span s 0)) × (r.world.current ≡ some s)
  wrap_handler-thrown x h i e = rw e at (wrap_handler-Left h i)

  -- The same of a request whose handler throws, and nothing is recorded behind the throw.
  pub request-Left :
      {X : Type 0} (view : EventOp → Option X) (x : Exception) {xs : List X}
      → IsBalanced I s 0 (handler req res)
      → I w.env
      → let inner = handler req res 0 (record w { current = some s }) in
        (inner.out ≡ thrown x) × (seen view inner.log ≡ xs)
        → let r = wrap_handler app s handler req res 0 w in
          (run closed r.log ≡ some (open_span s 0))
          × (r.world.current ≡ some s)
          × (r.out ≡ thrown x)
          × (seen view r.log ≡ xs)
  unfolding wrap_handler leave enter seen
  request-Left view x h i (e, shown) =
      let left = wrap_handler-thrown x h i e in
      let stops =
        leave-thrown I app s req (handler req res 0 (record w { current = some s })).out
          (handler req res 0 (record w { current = some s })).log
          (handler req res 0 (record w { current = some s })).world x e in
      (left.0, left.1, stops.1, ap (seen view) stops.0 ∙ shown)

  -- The same of a whole request, with what its span events show.
  pub request-Ended :
      {X : Type 0} (view : EventOp → Option X) (done : Response) {xs : List X}
      → IsBalanced I s 0 (handler req res)
      → I w.env
      → let inner = handler req res 0 (record w { current = some s }) in
        (inner.out ≡ returned done) × (seen view inner.log ≡ xs)
        → let r = wrap_handler app s handler req res 0 w in
          Ended r × (r.out ≡ returned done) × (seen view r.log ≡ xs)
  request-Ended view done h i (e, shown) = (
    wrap_handler-Ended done h i e,
    (wrap_handler-log done e).1,
    seen-wrap_handler view done e ∙ shown,
  )
