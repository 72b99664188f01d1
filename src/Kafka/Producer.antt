-- ===== src/Kafka/Producer.antt =====
-- `produce_message` and `handle_run_producer`.
use pinpoint_cpp_examples.Common.{
  ℕ, Bool, true, false, Option, none, some, List, ◌++◌, Text, lit, if◌then◌else◌,
}
use pinpoint_cpp_examples.Common.Decimal.{to_string}
use pinpoint_cpp_examples.Trace.{
  request_headers, response_headers, kafka_headers, kafka_headers_object, kafka, set_end_point,
  set_destination, new_span, on_span, on_event, end_span, acquire, release, adopt, set_error,
  inject_context, trace_http_server_request, trace_http_server_response,
}
use pinpoint_cpp_examples.Trace.Program.{Program, value, ask, scoped, emit, pure, ◌>>=◌, ◌>>◌}
use pinpoint_cpp_examples.Http.{Request, Response, Handler, set_content}
use pinpoint_cpp_examples.Kafka.Headers.{RdHeaders, set_all}

-- The producer's side of librdkafka: `produce`, whose error is `none` for ERR_NO_ERROR and else what
-- `err2str` says, and `poll`; the trace context that the agent writes; the clock in seconds.
pub record RdKafka : Type 1 where
  pub Env : Type 0
  pub headers_api : RdHeaders
  pub produce : Text → Text → Option headers_api.Headers → Env → Option Text × Env
  pub poll : Env → Env
  pub context : Env → List (Text × Text) × Env
  pub now : Env → ℕ × Env

-- `g_brokers`, `g_topic_str`, and whether `g_producer` is set.
pub record Globals : Type 0 where
  pub brokers : Text
  pub topic : Text
  pub has_producer : Bool

module _ (rd : RdKafka) (globals : Globals) where
  open rd use {Env, headers_api, produce, poll, context, now}

  -- Behind `produce`: on success the message has adopted the headers.
  unfoldable pub delivered : ℕ → Option Text → Program Env Bool
  delivered e (some error) = do
    emit (on_event e (set_error error))
    emit (release kafka_headers_object)
    pure false
  delivered e none = do
    emit (adopt kafka_headers_object)
    ask (λ env. (value tt, poll env))
    pure true

  unfoldable pub produce_under : Text → ℕ → Program Env Bool
  unfolding delivered
  produce_under payload e = do
    emit (on_event e (set_end_point globals.brokers))
    emit (on_event e (set_destination globals.topic))
    emit (acquire kafka_headers_object)
    emit (on_event e (inject_context kafka_headers))
    written ← ask (λ env. (value (context env).0, (context env).1))
    resp ← ask (λ env.
        let (r, next) =
          produce globals.topic payload (set_all headers_api written (some headers_api.create))
            env in
        (value r, next))
    delivered e resp

  unfoldable pub produce_message : Text → Option ℕ → Program Env Bool
  unfolding produce_under
  produce_message payload span =
      if globals.has_producer
      then scoped span (lit "KafkaProduce") kafka (produce_under payload)
      else pure false

  -- The response, with the error that the span is told.
  unfoldable pub respond : ℕ → Response → Text → Bool → Program Env Response
  respond span res payload true = pure (
      set_content (lit "Message sent to Kafka: " ++ payload) (lit "text/plain")
        (record res { status = 200 }))
  respond span res payload false = do
    emit (on_span span (set_error (lit "Kafka production failed")))
    pure (
        set_content (lit "Failed to send message to Kafka") (lit "text/plain")
          (record res { status = 500 }))

  -- From the response to the end of the handler.
  unfoldable pub finish : ℕ → Request → Response → Text → Bool → Program Env Response
  unfolding respond
  finish span req res payload success = do
    done ← respond span res payload success
    emit (
        on_span span
          (trace_http_server_response req.matched_route req.method done.status response_headers))
    emit (end_span span)
    pure done

  unfoldable pub payload_of : Request → ℕ → Text
  payload_of req seconds =
      if req.has_param (lit "message")
      then req.get_param_value (lit "message")
      else lit "Message from web producer " ++ to_string seconds

  -- `span` is the pointer that `NewSpan` returns.
  unfoldable pub handle_run_producer : ℕ → Handler Env
  unfolding produce_message finish payload_of
  handle_run_producer span req res = do
    emit (new_span span (lit "KafkaWebProducer") (lit "/run_producer") (some request_headers))
    emit (
        on_span span (
          trace_http_server_request req.remote_addr (req.get_header_value (lit "Host"))
            request_headers))
    seconds ← ask (λ env. (value (now env).0, (now env).1))
    success ← produce_message (payload_of req seconds) (some span)
    finish span req res (payload_of req seconds) success
