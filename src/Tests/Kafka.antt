-- ===== src/Tests/Kafka.antt =====
-- The Kafka producer and consumer.
use pinpoint_cpp_examples.Common.{
  ℕ, ◌+◌, ◌≡◌, refl, true, Option, none, some, List, [], ◌∷◌, ◌++◌, Text, lit, text_eq,
  if◌then◌else◌,
}
use pinpoint_cpp_examples.Common.Decimal.{to_string}
use pinpoint_cpp_examples.Common.Environ.{getenv, set_defaults}
use pinpoint_cpp_examples.Common.Int.{int_to_string, pos}
use pinpoint_cpp_examples.Trace.Protocol.{closed}
use pinpoint_cpp_examples.Trace.Shows.{api_text, seen}
use pinpoint_cpp_examples.Trace.Goes.{Goes}
use pinpoint_cpp_examples.Kafka.Headers.{RdHeaders, KeepsLast, get, last_value}
use pinpoint_cpp_examples.Kafka.Producer.{RdKafka, Globals, payload_of, handle_run_producer}
use pinpoint_cpp_examples.Kafka.Served.{response_of, sent, producer_request-Ended}
use pinpoint_cpp_examples.Kafka.Sent.{recording, messages, sent_message, handle_run_producer-Sent}
use pinpoint_cpp_examples.Kafka.Consumer.{
  Message, Polled, message, failed, Answers, stops, round, start_agent, global_agent, conf_create,
  conf_delete, consumer_create, subscribe, consumer_close, consumer_delete, main, brokers_of,
  defaults, record_text,
}
use pinpoint_cpp_examples.Kafka.Consumer.Stopped.{life, booting, standing, main-life}
use pinpoint_cpp_examples.Kafka.Consumer.Signal.{
  ticks_of, rounds_acts, agent_calls, texts, main-stops,
}
use pinpoint_cpp_examples.Tests.Requests.{get_run_demo, fresh, idle as idle_world}

-- Headers as the list of what was added, the last one first.
abbrev find_key : Text → List (Text × Text) → Option Text
find_key key [] = none
find_key key ((k, v) ∷ rest) = if text_eq k key then some v else find_key key rest

abbrev listed : RdHeaders
listed = record {
  Headers = List (Text × Text);
  create = [];
  add = λ key value h. (key, value) ∷ h;
  get_last = find_key;
}

listed_keeps : KeepsLast listed
listed_keeps = record { created = λ key. refl; added = λ asked key value h. refl }

abbrev two_headers : List (Text × Text)
two_headers = (lit "Pinpoint-Sampled", lit "s0") ∷ (lit "Pinpoint-Sampled", lit "s1") ∷ []

-- A broker whose queue is full; the environment counts the messages.
abbrev full_queue : RdKafka
full_queue = record {
  Env = ℕ;
  headers_api = listed;
  produce = λ topic payload headers n. (some (lit "Local: Queue full"), n + 1);
  poll = λ n. n;
  context = λ n. (two_headers, n);
  now = λ n. (1700000000, n);
}

abbrev globals : Globals
globals = record { brokers = lit "localhost:9092"; topic = lit "test-topic"; has_producer = true }

producer_request-Ended_example :
    let payload = payload_of full_queue globals get_run_demo 1700000000 in
    Goes closed closed
      (λ done. done ≡ response_of fresh payload (sent full_queue globals 7 payload 0))
      (handle_run_producer full_queue globals 7 get_run_demo fresh 0 idle_world)
producer_request-Ended_example =
    producer_request-Ended full_queue globals 7 get_run_demo fresh idle_world

abbrev a_record : Message
a_record = record { has_headers = true; partition = pos 0; offset = pos 41 }

a_record_text : record_text (lit "test-topic") a_record ≡ lit "test-topic[0] offset 41"
unfolding record_text int_to_string to_string lit
a_record_text = refl

handle_run_producer-Sent_example :
    let payload = payload_of full_queue globals get_run_demo 1700000000 in
    let r =
      handle_run_producer
        (recording full_queue)
        globals
        7
        get_run_demo
        fresh
        0
        (record { current = none; env = (0, []) }) in
    (r.world.env.1 ≡ messages full_queue globals globals.has_producer payload 0)
    × ((asked : Text)
        → get listed (sent_message full_queue globals payload 0).2 asked
          ≡ last_value asked two_headers none)
handle_run_producer-Sent_example =
    handle_run_producer-Sent full_queue globals listed_keeps 7 get_run_demo fresh
      (record { current = none; env = (0, []) })

abbrev willing : Answers
willing = record { creates = true; subscribes = true }

abbrev two_polls : List (ℕ × Polled)
two_polls = (7, failed) ∷ (8, message a_record) ∷ []

main-life_example :
    let r = main [] willing (ticks_of two_polls) in life booting r.0 ≡ some (standing r.1)
main-life_example = main-life [] willing (ticks_of two_polls)

main-stops_example :
    let brokers = brokers_of (getenv (lit "KAFKA_BROKERS") []) in
    let topic = lit "test-topic" in
    let r = main [] willing (ticks_of two_polls ++ stops ∷ round 9 failed ∷ []) in
    (r ≡ (
      start_agent (set_defaults defaults [])
          ∷ global_agent
          ∷ conf_create
          ∷ consumer_create true
          ∷ conf_delete
          ∷ subscribe true
          ∷ (rounds_acts brokers topic two_polls ++ consumer_close ∷ consumer_delete ∷ []),
      some 0,
    ))
    × (seen api_text (agent_calls r.0) ≡ texts topic two_polls)
main-stops_example = main-stops [] willing two_polls (round 9 failed ∷ []) refl refl
