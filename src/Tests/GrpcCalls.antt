-- ===== src/Tests/GrpcCalls.antt =====
-- Calls of the gRPC example.
use pinpoint_cpp_examples.Common.{
  ◌≡◌, refl, ◌∙◌, ◌++◌, Bool, true, false, none, some, [], ◌∷◌, Text, lit, lower, text_eq,
  append-nil,
}
use pinpoint_cpp_examples.Trace.Protocol.{closed, run}
use pinpoint_cpp_examples.Grpc.Server.{
  Status, RpcInfo, Batch, Interceptor, intercept, intercept_all, server_call-Ended,
}
use pinpoint_cpp_examples.Trace
use pinpoint_cpp_examples.Grpc.Client
use pinpoint_cpp_examples.Grpc.Client.{ClientInfo}
use pinpoint_cpp_examples.Grpc.Metadata.{
  Metadata, Delivers, values-append, get, set_all, received, to_lower, values, first_of,
  get-set_all,
}

abbrev pub fine : Status
fine = record { ok = true; error_message = [] }

abbrev pub unavailable : Status
unavailable = record { ok = false; error_message = lit "unavailable" }

abbrev pub info : RpcInfo
info = record {
  method = lit "/grpcdemo.Hello/UnaryCallUnaryReturn";
  peer = some (lit "ipv4:127.0.0.1:54321");
}

abbrev pub first_batch : Batch
first_batch = record {
  post_recv_initial_metadata = true;
  pre_send_status = false;
  send_status = fine;
  created = some 7;
  is_sampled = true;
}

abbrev pub last_batch : Batch
last_batch = record {
  post_recv_initial_metadata = false;
  pre_send_status = true;
  send_status = unavailable;
  created = none;
  is_sampled = false;
}

server_call-Ended_example :
    let fresh : Interceptor = record { span = none; current = none } in
    let before = intercept_all info (first_batch ∷ []) fresh in
    let after = intercept info last_batch before.1 in
    (run closed (before.0 ++ after.0) ≡ some closed)
    × (after.1.span ≡ none)
    × (after.1.current ≡ none)
server_call-Ended_example = server_call-Ended info (first_batch ∷ []) last_batch none refl

abbrev written : Metadata
written = (lit "Pinpoint-TraceID", lit "agent^1^2") ∷ (lit "pinpoint-traceid", lit "x") ∷ []

-- gRPC's own key, and what it adds under it.
abbrev is_own : Text → Bool
is_own key = text_eq (lit "user-agent") key

abbrev with_agent : Metadata → Metadata
with_agent m = m ++ (lit "user-agent", lit "grpc-c++") ∷ []

with_agent-Delivers : Delivers is_own with_agent
unfolding to_lower lower lit
with_agent-Delivers k m free =
    values-append k m ((lit "user-agent", lit "grpc-c++") ∷ []) ∙ rw free (append-nil (values k m))

get-set_all_example :
    (get (received with_agent (set_all written (some []))) (lit "PINPOINT-traceid")
      ≡ first_of (values (to_lower (lit "PINPOINT-traceid")) written))
    × (get (received with_agent (set_all written none)) (lit "PINPOINT-traceid") ≡ none)
unfolding to_lower lower lit text_eq
get-set_all_example =
    get-set_all is_own with_agent with_agent-Delivers written (lit "PINPOINT-traceid") refl

abbrev client_info : ClientInfo
client_info = record {
  method = lit "/grpcdemo.Hello/UnaryCallUnaryReturn";
  remote = lit "localhost:50051";
  has_context = true;
}

abbrev pub sending : Client.Batch
sending = record {
  pre_send_initial_metadata = true;
  post_recv_status = false;
  recv_status = none;
  makes_event = true;
}

abbrev pub receiving : Client.Batch
receiving = record {
  pre_send_initial_metadata = false;
  post_recv_status = true;
  recv_status = some unavailable;
  makes_event = false;
}

-- A message of a stream.
abbrev pub streaming : Client.Batch
streaming = record receiving { post_recv_status = false; recv_status = none }
