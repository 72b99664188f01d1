-- ===== src/Trace.antt =====
-- The calls that the C++ examples make on the Pinpoint agent (`pinpoint/tracer.h`), as data. The
-- agent is another project: what it does with a call is not modelled, only which calls are made, on
-- which object and in which order. `Program` is the monad of the examples' code, `Protocol` the
-- discipline that spans and span events have to follow.
pub mod Program
pub mod Protocol
pub mod Balanced
pub mod Shows
pub mod Meets
pub mod Attempts
pub mod Goes
pub mod Resources
pub mod Drives
pub mod Does
use pinpoint_cpp_examples.Common.{ℕ, Option, List, Text}

-- The service types that the examples name; `default_type` stands for the argument left out.
pub data ServiceType : Type 0 where
  default_type : ServiceType
  cpp_http_client : ServiceType
  mysql_query : ServiceType
  mongodb_query : ServiceType
  redis : ServiceType
  kafka : ServiceType
  grpc_server : ServiceType
  grpc_client : ServiceType

pub data AnnotationKey : Type 0 where
  api : AnnotationKey
  http_url : AnnotationKey

-- Which header carrier a helper of the agent is given.
pub data Carrier : Type 0 where
  request_headers : Carrier
  response_headers : Carrier
  client_request_headers : Carrier
  client_response_headers : Carrier
  curl_headers : Option (List Text) → Carrier
  kafka_headers : Carrier
  grpc_metadata : Carrier

-- What the C interfaces hand out and want back.
pub data Resource : Type 0 where
  redis_context : Resource
  redis_reply : Resource
  curl_handle : Resource
  curl_list : Resource
  kafka_headers_object : Resource
  kafka_message : Resource
  mysql_session : Resource

-- Methods of a span, and of the helpers that take one.
pub data SpanOp : Type 0 where
  set_service_type : ServiceType → SpanOp
  set_remote_address : Text → SpanOp
  set_end_point : Text → SpanOp
  set_error : Text → SpanOp
  set_named_error : Text → Text → SpanOp
  trace_http_server_request : Text → Text → Carrier → SpanOp
  trace_http_server_response : Text → Text → ℕ → Carrier → SpanOp

-- Methods of a span event, and of the helpers that take one.
pub data EventOp : Type 0 where
  set_service_type : ServiceType → EventOp
  set_end_point : Text → EventOp
  set_destination : Text → EventOp
  set_annotation : AnnotationKey → Text → EventOp
  set_sql_query : Text → List Text → EventOp
  set_error : Text → EventOp
  set_named_error : Text → Text → EventOp
  set_error_with_stack : Text → Text → EventOp
  inject_context : Carrier → EventOp
  trace_http_client_request : Text → Text → Carrier → EventOp
  trace_http_client_response : ℕ → Carrier → EventOp

-- A span is named by the pointer that `NewSpan` returned, a span event by the number of events that
-- were open when its guard was constructed. `new_event` and `end_event` are the constructor and the
-- destructor of a `ScopedSpanEvent`; its span may be a null pointer. `acquire` and `release` are no calls
-- of the agent: they mark where a resource of another library is handed out and given back; `adopt`
-- marks where another library takes it over.
pub data Call : Type 0 where
  new_span : ℕ → Text → Text → Option Carrier → Call
  on_span : ℕ → SpanOp → Call
  new_event : Option ℕ → ℕ → Text → ServiceType → Call
  on_event : ℕ → EventOp → Call
  end_event : ℕ → Call
  end_span : ℕ → Call
  acquire : Resource → Call
  release : Resource → Call
  adopt : Resource → Call
