-- ===== src/Grpc/Calls.antt =====
-- grpc/grpc_client.cpp: the three calls to the service, and the HTTP handler that makes them. gRPC runs the
-- client interceptor in the batches of each call.
pub mod Served
use pinpoint_cpp_examples.Common.{
  ℕ, zero, suc, Bool, true, false, ◌&&◌, not, Option, none, some, List, [], ◌∷◌, ◌++◌, Text, lit,
  flatten, if◌then◌else◌,
}
use pinpoint_cpp_examples.Common.Decimal.{to_string}
use pinpoint_cpp_examples.Trace.{Call, SpanOp, default_type, on_span, on_event, set_error}
use pinpoint_cpp_examples.Trace.Program.{
  Program, World, Run, returned, fault, scoped, emit, pure, get_span_context, ◌>>=◌, ◌>>◌,
}
use pinpoint_cpp_examples.Http
use pinpoint_cpp_examples.Http.{Request, Response, Handler, set_content}
use pinpoint_cpp_examples.Grpc.Server.{Status}
use pinpoint_cpp_examples.Grpc.Client.{Batch, Interceptor, create_client_interceptor, client_call}

-- The batches of a call behind the first, in the order in which gRPC runs them.
pub record Delivery : Type 0 where
  pub before : List Batch
  pub last : Batch
  pub behind : List Batch

abbrev pub batches_of : Delivery → List Batch
batches_of d = d.before ++ d.last ∷ d.behind

-- A stub: the batch that starts a call, `Write`, `Read`, the messages that come until `Read` fails, and
-- `Finish` with the later batches, which gRPC has run by then, and the status.
pub record Stub : Type 1 where
  pub Env : Type 0
  pub start : Env → Batch × Env
  pub write : Text → Env → Env
  pub read : Env → Option Text × Env
  pub read_all : Env → List Text × Env
  pub finish : Env → (Delivery × Status) × Env

-- What gRPC calls the methods.
abbrev pub path_of : Text → Text
path_of method = lit "/grpcdemo.Hello/" ++ method

abbrev pub bool_text : Bool → Text
bool_text b = if b then lit "true" else lit "false"

unfoldable pub body_of : Text → Bool → Bool → Bool → Text
body_of target unary_ok stream_ok bidi_ok = flatten (
    lit "{\n"
    ∷ lit "  \"success\": "
    ∷ bool_text (unary_ok && (stream_ok && bidi_ok))
    ∷ lit ",\n"
    ∷ lit "  \"target\": \""
    ∷ target
    ∷ lit "\",\n"
    ∷ lit "  \"calls\": {\n"
    ∷ lit "    \"unary\": "
    ∷ bool_text unary_ok
    ∷ lit ",\n"
    ∷ lit "    \"server_streaming\": "
    ∷ bool_text stream_ok
    ∷ lit ",\n"
    ∷ lit "    \"bidirectional\": "
    ∷ bool_text bidi_ok
    ∷ lit "\n"
    ∷ lit "  }\n"
    ∷ lit "}"
    ∷ [])

module _ (stub : Stub) (target : Text) where
  open stub use {Env, start, write, read, read_all, finish}

  intercepted : Option (List Call × Interceptor) → Status → World Env → Run Env Status
  intercepted none status w = record { log = []; out = fault; world = w }
  intercepted (some r) status w = record { log = r.0; out = returned status; world = w }

  -- A call with what is written and read in it, under the interceptor that `CreateStubWithInterceptor` has
  -- given the channel.
  unfoldable pub call : Text → (Env → Env) → Program Env Status
  unfolding intercepted
  call method over_stream d w =
      let (send, started) = start w.env in
      let ((delivery, status), env) = finish (over_stream started) in
      let info = create_client_interceptor target (path_of method) true in
      intercepted (client_call info send (batches_of delivery) w.current d) status
        (record w { env = env })

  -- `span->SetError(...)`, where `span` may be null.
  unfoldable pub set_span_error : Option ℕ → Text → Program Env (Unit {0})
  set_span_error none message d w = record { log = []; out = fault; world = w }
  set_span_error (some s) message d w = record {
    log = on_span s (SpanOp.set_error message) ∷ [];
    out = returned tt;
    world = w;
  }

  unfoldable pub check_status : Option ℕ → Status → Program Env Bool
  unfolding set_span_error
  check_status span status = elim status.ok [
    | true ↦ pure true
    | false ↦ do set_span_error span status.error_message; pure false
  ]

  unfoldable pub call_unary : Option ℕ → Program Env Bool
  unfolding call check_status
  call_unary span = do
    status ← call (lit "UnaryCallUnaryReturn") (λ env. env)
    check_status span status

  unfoldable pub call_server_streaming : Option ℕ → Program Env Bool
  unfolding call check_status
  call_server_streaming span = do
    status ← call (lit "UnaryCallStreamReturn") (λ env. (read_all env).1)
    check_status span status

  -- The rounds that are left, and `i`.
  unfoldable pub write_read_loop : ℕ → ℕ → Env → Env
  write_read_loop zero i env = env
  write_read_loop (suc rounds) i env =
      write_read_loop rounds (suc i) (read (write (lit "Message " ++ to_string i) env)).1

  unfoldable pub call_bidirectional : Option ℕ → Program Env Bool
  unfolding call check_status write_read_loop
  call_bidirectional span = do
    status ← call (lit "StreamCallStreamReturn") (write_read_loop 3 0)
    check_status span status

  -- With the body, and `success`.
  unfoldable pub answer : ℕ → Response → Text → Bool → Program Env Response
  answer e res body true =
      pure (set_content body (lit "application/json") (record res { status = 200 }))
  answer e res body false = do
    emit (on_event e (set_error (lit "one or more gRPC calls failed")))
    pure (set_content body (lit "application/json") (record res { status = 502 }))

  unfoldable pub handle_run_client : Handler Env
  unfolding call_unary call_server_streaming call_bidirectional answer body_of
  handle_run_client req res = do
    span ← get_span_context
    scoped span (lit "handle_run_client") default_type λ e. do
      unary_ok ← call_unary span
      stream_ok ← call_server_streaming span
      bidi_ok ← call_bidirectional span
      answer e res (body_of target unary_ok stream_ok bidi_ok) (unary_ok && (stream_ok && bidi_ok))

  -- `wrap_handler(handle_run_client)`.
  unfoldable pub serve : ℕ → Handler Env
  serve span = Http.wrap_handler (lit "gRPC Client Web") span handle_run_client
