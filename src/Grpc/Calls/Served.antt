-- ===== src/Grpc/Calls/Served.antt =====
-- Whole requests to the gRPC client.
use pinpoint_cpp_examples.Common.{
  ℕ, suc, ◌≡◌, refl, Bool, true, false, ◌&&◌, some, Text, lit, All, ==_refl, if◌then◌else◌,
}
use pinpoint_cpp_examples.Trace.Program.{World, returned, ◌>>=◌}
use pinpoint_cpp_examples.Trace.Protocol.{run}
use pinpoint_cpp_examples.Trace.Balanced.{Anything, lt_suc}
use pinpoint_cpp_examples.Trace.Does.{
  Does, Does-pure, Does-bind, Does-scoped, Does-get_span_context, Does-on_event, Does-IsBalanced,
}
use pinpoint_cpp_examples.Http.{Request, Response, set_content}
use pinpoint_cpp_examples.Http.Wrapped.{Ended, wrap_handler-Ended, wrap_handler-log}
use pinpoint_cpp_examples.Grpc.Server.{Status}
use pinpoint_cpp_examples.Grpc.Client.{create_client_interceptor}
use pinpoint_cpp_examples.Grpc.Client.Batches.{IsLater, client_call-Closed}
use pinpoint_cpp_examples.Grpc.Calls.{
  Stub, path_of, body_of, call, intercepted, check_status, set_span_error, call_unary,
  call_server_streaming, call_bidirectional, write_read_loop, answer, handle_run_client, serve,
}

-- gRPC runs the interceptor's hook points as it documents: the metadata are sent in the first batch and in
-- no other, and `last` receives the status.
pub record RunsHooks (stub : Stub) : Type 0 where
  pub sends : (env : stub.Env) → (stub.start env).0.pre_send_initial_metadata ≡ true
  pub before_later : (env : stub.Env) → All IsLater (stub.finish env).0.0.before
  pub last_later : (env : stub.Env) → IsLater (stub.finish env).0.0.last
  pub behind_later : (env : stub.Env) → All IsLater (stub.finish env).0.0.behind
  pub receives : (env : stub.Env) → (stub.finish env).0.0.last.post_recv_status ≡ true

module _ (stub : Stub) (target : Text) where
  open stub use {Env, start, read_all, finish}

  -- The status of a call, and the environment behind it.
  abbrev pub status_of : (Env → Env) → Env → Status
  status_of over_stream env = (finish (over_stream (start env).1)).0.1

  abbrev pub env_of : (Env → Env) → Env → Env
  env_of over_stream env = (finish (over_stream (start env).1)).1

module _ (stub : Stub) (law : RunsHooks stub) (target : Text) {s d : ℕ} where
  intercepted-Does :
      (method : Text) (over_stream : stub.Env → stub.Env) (env : stub.Env)
      → Does s d
          (call stub target method over_stream)
          env
          (status_of stub target over_stream env)
          (env_of stub target over_stream env)
  unfolding call intercepted
  intercepted-Does method over_stream env =
      let started = (stub.start env).1 in
      let send = (stub.start env).0 in
      let delivery = (stub.finish (over_stream started)).0.0 in
      let info = create_client_interceptor target (path_of method) true in
      let (r, e, kept) =
        client_call-Closed info s d send delivery.last delivery.before delivery.behind
          (law.sends env) (law.before_later (over_stream started))
          (law.last_later (over_stream started)) (law.receives (over_stream started))
          (law.behind_later (over_stream started)) in
      record { at = rw e (refl, refl, kept.0) }

  told-Does :
      (status : Status) (env : stub.Env)
      → Does s d (set_span_error stub target (some s) status.error_message) env tt env
  unfolding set_span_error run
  told-Does status env = record { at = (refl, refl, rw (==_refl s)) }

  check_status-Does :
      (status : Status) (env : stub.Env)
      → Does s d (check_status stub target (some s) status) env status.ok env
  unfolding check_status
  check_status-Does status env = by_ok status.ok
    where
      by_ok :
          (b : Bool)
          → Does s d (check_status stub target (some s) (record status { ok = b })) env b env
      by_ok true = Does-pure true
      by_ok false = Does-bind _ (told-Does status env) (Does-pure false)

-- The outcome of a request: the response with what the three calls gave, 200 if all of them succeeded.
abbrev pub response_of : Text → Response → Bool → Bool → Bool → Response
response_of target res unary_ok stream_ok bidi_ok =
    set_content (body_of target unary_ok stream_ok bidi_ok) (lit "application/json")
      (record res { status = if unary_ok && (stream_ok && bidi_ok) then 200 else 502 })

module _ (stub : Stub) (target : Text) {s d : ℕ} where
  answer-Does :
      (res : Response) (body : Text) (b : Bool) (env : stub.Env)
      → Does s
          (suc d)
          (answer stub target d res body b)
          env
          (set_content body
            (lit "application/json")
            (record res { status = if b then 200 else 502 }))
          env
  unfolding answer
  answer-Does res body true env = Does-pure _
  answer-Does res body false env = Does-bind _ (Does-on_event _ (lt_suc d)) (Does-pure _)

module _ (stub : Stub) (target : Text) where
  open stub use {Env, read_all}

  -- Whether each call succeeds, one after the other from this environment.
  abbrev pub after_unary : Env → Env
  after_unary = env_of stub target (λ env. env)

  abbrev pub after_stream : Env → Env
  after_stream env = env_of stub target (λ v. (read_all v).1) (after_unary env)

  abbrev pub after_bidi : Env → Env
  after_bidi env = env_of stub target (write_read_loop stub target 3 0) (after_stream env)

  abbrev pub unary_ok : Env → Bool
  unary_ok env = (status_of stub target (λ v. v) env).ok

  abbrev pub stream_ok : Env → Bool
  stream_ok env = (status_of stub target (λ v. (read_all v).1) (after_unary env)).ok

  abbrev pub bidi_ok : Env → Bool
  bidi_ok env = (status_of stub target (write_read_loop stub target 3 0) (after_stream env)).ok

  abbrev pub responded : Response → Env → Response
  responded res env = response_of target res (unary_ok env) (stream_ok env) (bidi_ok env)

module _ (stub : Stub) (law : RunsHooks stub) (target : Text) {s d : ℕ} where
  handle-Does :
      (req : Request) (res : Response) (env : stub.Env)
      → Does s d
          (handle_run_client stub target req res)
          env
          (responded stub target res env)
          (after_bidi stub target env)
  unfolding handle_run_client call_unary call_server_streaming call_bidirectional
  handle-Does req res env = Does-get_span_context _ (
      Does-scoped _ _ _ (
        Does-bind _ (checked _ (λ v. v) _) (
          Does-bind _ (checked _ (λ v. (stub.read_all v).1) _) (
            Does-bind _ (checked _ (write_read_loop stub target 3 0) _)
              (answer-Does stub target res _ _ _)))))
    where
      checked :
          (method : Text) (over_stream : stub.Env → stub.Env) (v : stub.Env)
          → Does s
              (suc d)
              (call stub target method over_stream >>= check_status stub target (some s))
              v
              (status_of stub target over_stream v).ok
              (env_of stub target over_stream v)
      checked method over_stream v =
          Does-bind _ (intercepted-Does stub law target _ over_stream v)
            (check_status-Does stub law target _ _)

-- Every request to the gRPC client, whatever the calls end with, ends its span with no event open and clears
-- the thread's span: the events of the client interceptor open and close under the handler's. All three
-- calls are made; the response says which of them succeeded, with status 200 if all did and 502 if not.
-- gRPC runs the hook points as it documents.
pub client_request-Ended :
    (stub : Stub)
    → RunsHooks stub
    → (target : Text) (s : ℕ) (req : Request) (res : Response) (w : World stub.Env)
    → let r = serve stub target s req res 0 w in
      Ended r × (r.out ≡ returned (responded stub target res w.env))
unfolding serve
client_request-Ended stub law target s req res w =
    let handler = handle_run_client stub target in
    let does = handle-Does stub law target {s = s} {d = 0} req res in
    let balanced = Does-IsBalanced (handler req res) (λ v. (_, (_, does v))) in
    (
      wrap_handler-Ended Anything _ s handler req res w _ balanced tt (does w.env).at.0,
      (wrap_handler-log Anything _ s handler req res w _ (does w.env).at.0).1,
    )
