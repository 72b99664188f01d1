-- ===== src/Tests/GrpcDemo.antt =====
-- The service and the client of the gRPC example.
use pinpoint_cpp_examples.Common.{ℕ, ◌+◌, ◌==◌, ◌≡◌, refl, if◌then◌else◌, some, none, [], ◌∷◌, lit}
use pinpoint_cpp_examples.Trace.Program.{returned}
use pinpoint_cpp_examples.Trace.Protocol.{closed, run}
use pinpoint_cpp_examples.Http.Wrapped.{Ended}
use pinpoint_cpp_examples.Grpc.Server.{intercept, intercept_all}
use pinpoint_cpp_examples.Grpc.Service.{Rpc, call_stream_stream, ok_status, method_of}
use pinpoint_cpp_examples.Grpc.Service.Served.{call_log, response_of, stream_of, hello_call-Served}
use pinpoint_cpp_examples.Grpc.Calls.{Stub, serve}
use pinpoint_cpp_examples.Grpc.Calls.Served.{RunsHooks, responded, client_request-Ended}
use pinpoint_cpp_examples.Tests.Requests.{get_run_demo, fresh, idle}
use pinpoint_cpp_examples.Tests.GrpcCalls.{
  info, first_batch, last_batch, sending, receiving, streaming, fine, unavailable,
}

abbrev two_messages : Rpc
two_messages = call_stream_stream (lit "one" ∷ lit "two" ∷ [])

hello_call-Served_example :
    let before = intercept_all info (first_batch ∷ []) (record { span = none; current = none }) in
    let r = method_of two_messages 0 (record { current = before.1.current; env = [] }) in
    (r.out ≡ returned (ok_status, response_of two_messages))
    × (r.world.env ≡ stream_of two_messages)
    × (run closed
          (call_log info (first_batch ∷ []) last_batch (record { span = none; current = none }) r)
        ≡ some closed)
unfolding intercept_all intercept
hello_call-Served_example =
    hello_call-Served info two_messages 7 (first_batch ∷ []) last_batch none refl refl refl

-- The service answers the first two calls and is gone at the third; the environment counts the calls.
abbrev leaving : Stub
leaving = record {
  Env = ℕ;
  start = λ n. (sending, n);
  write = λ text n. n;
  read = λ n. (none, n);
  read_all = λ n. (lit "Stream response 0: Stream greetings" ∷ [], n);
  finish = λ n. (
    (
      record { before = streaming ∷ []; last = receiving; behind = [] },
      if n == 2 then unavailable else fine,
    ),
    n + 1,
  );
}

leaving_runs : RunsHooks leaving
leaving_runs = record {
  sends = λ n. refl;
  before_later = λ n. (refl, tt);
  last_later = λ n. refl;
  behind_later = λ n. tt;
  receives = λ n. refl;
}

client_request-Ended_example :
    let r = serve leaving (lit "localhost:50051") 7 get_run_demo fresh 0 idle in
    Ended r × (r.out ≡ returned (responded leaving (lit "localhost:50051") fresh 0))
client_request-Ended_example =
    client_request-Ended leaving leaving_runs (lit "localhost:50051") 7 get_run_demo fresh idle
