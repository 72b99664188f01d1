-- ===== src/Kafka/Consumer.antt =====
-- kafka/kafka_consumer.cpp: `main` with its loop, as the list of its calls on librdkafka and the agent. The
-- program runs until a signal, so the model takes the loop's course as a schedule.
pub mod Stopped
pub mod Signal
use pinpoint_cpp_examples.Common.{
  ℕ, ◌≡◌, refl, Bool, true, false, Option, none, some, List, [], ◌∷◌, ◌++◌, Text, lit, flatten,
  if◌then◌else◌,
}
use pinpoint_cpp_examples.Common.Environ.{Environ, getenv, set_defaults}
use pinpoint_cpp_examples.Common.Int.{ℤ, int_to_string}
use pinpoint_cpp_examples.Trace.{
  Call, Carrier, kafka_headers, kafka, api, default_type, new_span, on_span, new_event, on_event,
  end_event, end_span, SpanOp, EventOp, set_annotation,
}

-- A message without an error: `headers()`, null or not, `partition()` and `offset()`.
pub record Message : Type 0 where
  pub has_headers : Bool
  pub partition : ℤ
  pub offset : ℤ

-- What `consume(1000)` returns: a message, or one that only carries an error, such as a timeout.
pub data Polled : Type 0 where
  message : Message → Polled
  failed : Polled

-- One test of `while (run)`: the signal has come, or it has not and the body runs. `created` is the pointer
-- from `NewSpan`.
pub data Tick : Type 0 where
  stops : Tick
  round : (created : ℕ) → Polled → Tick

-- `start_agent` carries the environment that the agent reads.
pub data Act : Type 0 where
  start_agent : Environ → Act
  global_agent : Act
  agent : Call → Act
  conf_create : Act
  conf_delete : Act
  consumer_create : Bool → Act
  subscribe : Bool → Act
  consume : Act
  message_delete : Act
  consumer_close : Act
  consumer_delete : Act

carrier_of : Bool → Option Carrier
carrier_of true = some kafka_headers
carrier_of false = none

unfoldable pub record_text : Text → Message → Text
record_text topic msg = flatten (
    topic ∷ lit "[" ∷ int_to_string msg.partition ∷ lit "] offset " ∷ int_to_string msg.offset ∷ [])

unfoldable pub message_calls : Text → Text → ℕ → Message → List Call
unfolding carrier_of
message_calls brokers topic s msg =
    new_span s (lit "KafkaConsume") (lit "kafka_consumer") (carrier_of msg.has_headers)
    ∷ on_span s (SpanOp.set_service_type kafka)
    ∷ on_span s (SpanOp.set_end_point brokers)
    ∷ on_span s (SpanOp.set_remote_address brokers)
    ∷ new_event (some s) 0 (lit "ProcessMessage") default_type
    ∷ on_event 0 (EventOp.set_end_point brokers)
    ∷ on_event 0 (set_annotation api (record_text topic msg))
    ∷ end_event 0
    ∷ end_span s
    ∷ []

agents : List Call → List Act
agents [] = []
agents (c ∷ cs) = agent c ∷ agents cs

polled_calls : Text → Text → ℕ → Polled → List Call
polled_calls brokers topic s (message msg) = message_calls brokers topic s msg
polled_calls brokers topic s failed = []

-- The body of the loop.
unfoldable pub round_acts : Text → Text → ℕ → Polled → List Act
unfolding agents polled_calls
round_acts brokers topic s polled =
    consume ∷ (agents (polled_calls brokers topic s polled) ++ message_delete ∷ [])

-- The loop along a schedule, and whether it has ended.
unfoldable pub consume_loop : Text → Text → List Tick → List Act × Bool
unfolding round_acts
consume_loop brokers topic [] = ([], false)
consume_loop brokers topic (stops ∷ ticks) = ([], true)
consume_loop brokers topic (round s polled ∷ ticks) =
    let (acts, ended) = consume_loop brokers topic ticks in
    (round_acts brokers topic s polled ++ acts, ended)

-- Behind the loop; while it runs there is no exit code.
after_loop : List Act × Bool → List Act × Option ℕ
after_loop (acts, true) = (acts ++ consumer_close ∷ consumer_delete ∷ [], some 0)
after_loop (acts, false) = (acts, none)

prepend : List Act → List Act × Option ℕ → List Act × Option ℕ
prepend acts (more, code) = (acts ++ more, code)

-- From `subscribe` on; the Boolean says whether it succeeds.
unfoldable pub run_consumer : Text → Text → Bool → List Tick → List Act × Option ℕ
unfolding consume_loop after_loop prepend
run_consumer brokers topic false ticks = (subscribe false ∷ consumer_delete ∷ [], some 1)
run_consumer brokers topic true ticks =
    prepend (subscribe true ∷ []) (after_loop (consume_loop brokers topic ticks))

-- What librdkafka answers: whether there is a consumer, and whether it can subscribe.
pub record Answers : Type 0 where
  pub creates : Bool
  pub subscribes : Bool

-- From `KafkaConsumer::create` on.
created : Text → Bool → Bool → List Tick → List Act × Option ℕ
unfolding run_consumer
created brokers false subscribes ticks = (consumer_create false ∷ conf_delete ∷ [], some 1)
created brokers true subscribes ticks =
    prepend (consumer_create true ∷ conf_delete ∷ [])
      (run_consumer brokers (lit "test-topic") subscribes ticks)

unfoldable pub brokers_of : Option Text → Text
brokers_of none = lit "localhost:9092"
brokers_of (some brokers) = brokers

abbrev pub defaults : List (Text × Text)
defaults =
    (lit "PINPOINT_CPP_APPLICATION_NAME", lit "cpp-kafka-consumer-demo")
    ∷ (lit "PINPOINT_CPP_UID_VERSION", lit "v3")
    ∷ []

-- `main`: the calls, and the exit code.
unfoldable pub main : Environ → Answers → List Tick → List Act × Option ℕ
unfolding created brokers_of
main env answers ticks =
    prepend (start_agent (set_defaults defaults env) ∷ global_agent ∷ conf_create ∷ []) (
      created (brokers_of (getenv (lit "KAFKA_BROKERS") env)) answers.creates answers.subscribes
        ticks)
