-- ===== src/Grpc/Service.antt =====
-- `HelloServiceImpl`: the four methods, on the thread whose span the server interceptor has set. What the
-- client streams is a list of messages, after which `Read` fails; the environment is what went over the
-- stream, in order.
pub mod Served
use pinpoint_cpp_examples.Common.{
  ℕ, zero, suc, true, Option, none, some, List, [], ◌∷◌, ◌++◌, Text, lit,
}
use pinpoint_cpp_examples.Common.Decimal.{to_string}
use pinpoint_cpp_examples.Trace.{default_type}
use pinpoint_cpp_examples.Trace.Program.{
  Program, value, ask, scoped, pure, get_span_context, ◌>>=◌, ◌>>◌,
}
use pinpoint_cpp_examples.Grpc.Server.{Status}

pub data StreamAct : Type 0 where
  got : Text → StreamAct
  sent : Text → StreamAct

abbrev pub Wire : Type 0
Wire = List StreamAct

-- `grpc::Status::OK`.
abbrev pub ok_status : Status
ok_status = record { ok = true; error_message = [] }

unfoldable pub over_stream : StreamAct → Program Wire (Unit {0})
over_stream act = ask (λ wire. (value tt, wire ++ act ∷ []))

-- What a method returns: its status, and its response if it has one.
abbrev pub Returned : Type 0
Returned = Status × Option Text

unfoldable pub unary_unary : Text → Program Wire Returned
unary_unary request = do
  span ← get_span_context
  scoped span (lit "HelloServiceImpl::UnaryCallUnaryReturn") default_type
      λ e. pure (ok_status, some (lit "Unary response: " ++ request))

-- The rounds that are left, and `i`.
unfoldable pub write_loop : Text → ℕ → ℕ → Program Wire (Unit {0})
unfolding over_stream
write_loop request zero i = pure tt
write_loop request (suc rounds) i = do
  over_stream (sent (lit "Stream response " ++ (to_string i ++ (lit ": " ++ request))))
  write_loop request rounds (suc i)

unfoldable pub unary_stream : Text → Program Wire Returned
unfolding write_loop
unary_stream request = do
  span ← get_span_context
  scoped span (lit "HelloServiceImpl::UnaryCallStreamReturn") default_type
      λ e. do write_loop request 3 0; pure (ok_status, none)

-- `while (reader->Read(&msg))`, and `combined`.
unfoldable pub combine_loop : List Text → Text → Program Wire Text
unfolding over_stream
combine_loop [] combined = pure combined
combine_loop (msg ∷ msgs) combined = do
  over_stream (got msg)
  combine_loop msgs (combined ++ (msg ++ lit " "))

unfoldable pub stream_unary : List Text → Program Wire Returned
unfolding combine_loop
stream_unary msgs = do
  span ← get_span_context
  scoped span (lit "HelloServiceImpl::StreamCallUnaryReturn") default_type λ e. do
    combined ← combine_loop msgs []
    pure (ok_status, some (lit "Unary response: " ++ combined))

unfoldable pub echo_loop : List Text → Program Wire (Unit {0})
unfolding over_stream
echo_loop [] = pure tt
echo_loop (request ∷ requests) = do
  over_stream (got request)
  over_stream (sent (lit "Echo: " ++ request))
  echo_loop requests

unfoldable pub stream_stream : List Text → Program Wire Returned
unfolding echo_loop
stream_stream requests = do
  span ← get_span_context
  scoped span (lit "HelloServiceImpl::StreamCallStreamReturn") default_type
      λ e. do echo_loop requests; pure (ok_status, none)

-- A call of the service, with what its client sends.
pub data Rpc : Type 0 where
  call_unary_unary : Text → Rpc
  call_unary_stream : Text → Rpc
  call_stream_unary : List Text → Rpc
  call_stream_stream : List Text → Rpc

unfoldable pub method_of : Rpc → Program Wire Returned
unfolding unary_unary unary_stream stream_unary stream_stream
method_of (call_unary_unary request) = unary_unary request
method_of (call_unary_stream request) = unary_stream request
method_of (call_stream_unary msgs) = stream_unary msgs
method_of (call_stream_stream requests) = stream_stream requests
