-- ===== src/Kafka/Consumer/Stopped.antt =====
-- What the consumer does along every schedule: its objects, its spans, and how it ends.
use pinpoint_cpp_examples.Common.{
  ℕ, ◌≡◌, refl, ◌∙◌, Bool, true, false, Option, none, some, Option-cases, inl, inr, List, [], ◌∷◌,
  ◌++◌, Text, lit, arith,
}
use pinpoint_cpp_examples.Common.Environ.{Environ}
use pinpoint_cpp_examples.Trace.{Call}
use pinpoint_cpp_examples.Trace.Protocol
use pinpoint_cpp_examples.Trace.Protocol.{State, closed, open_span}
use pinpoint_cpp_examples.Kafka.Consumer.{
  Message, Polled, message, failed, Tick, stops, round, Act, start_agent, global_agent, agent,
  conf_create, conf_delete, consumer_create, subscribe, consume, message_delete, consumer_close,
  consumer_delete, message_calls, agents, polled_calls, round_acts, consume_loop, after_loop,
  prepend, run_consumer, Answers, created, main,
}

-- The order that librdkafka and the agent want: the configuration is deleted, the consumer subscribes
-- before it polls, is closed, and deleted; a message is deleted when the agent has ended its span.
pub data Stage : Type 0 where
  booting : Stage
  agent_started : Stage
  idle : Stage
  configured : Stage
  has_consumer : Stage
  ready : Stage
  subscribed : Stage
  polled : State → Stage
  left : Stage

polled_in : Option State → Option Stage
polled_in none = none
polled_in (some q) = some (polled q)

unfoldable pub step : Stage → Act → Option Stage
unfolding polled_in
step booting (start_agent env) = some agent_started
step agent_started global_agent = some idle
step idle conf_create = some configured
step configured (consumer_create true) = some has_consumer
step configured (consumer_create false) = some configured
step configured conf_delete = some idle
step has_consumer conf_delete = some ready
step ready (subscribe true) = some subscribed
step ready (subscribe false) = some ready
step ready consumer_delete = some idle
step subscribed consume = some (polled closed)
step (polled q) (agent c) = polled_in (Protocol.step q c)
step (polled closed) message_delete = some subscribed
step subscribed consumer_close = some left
step left consumer_delete = some idle
step _ _ = none

and_then : Option Stage → (Stage → Option Stage) → Option Stage
and_then none f = none
and_then (some p) f = f p

unfoldable pub life : Stage → List Act → Option Stage
unfolding step and_then
life p [] = some p
life p (a ∷ as') = and_then (step p a) (λ q. life q as')

life-append : (p q : Stage) (xs ys : List Act) → life p xs ≡ some q → life p (xs ++ ys) ≡ life q ys
unfolding life
life-append p q [] ys h = ground arith
life-append p q (x ∷ xs) ys h = elim (Option-cases (step p x)) [
  | inl e ↦ cc
  | inr (t, e) ↦ rw (e, and_then) (life-append t q xs ys (rw e at h))
]

life-agents :
    (p q : State) (cs : List Call) (more : List Act)
    → Protocol.run p cs ≡ some q
    → life (polled p) (agents cs ++ more) ≡ life (polled q) more
unfolding life agents Protocol.run
life-agents p q [] more h = ground arith
life-agents p q (c ∷ cs) more h = elim (Option-cases (Protocol.step p c)) [
  | inl e ↦ cc
  | inr (t, e) ↦ rw (e, polled_in, and_then) (life-agents t q cs more (rw e at h))
]

message_calls-run :
    (brokers topic : Text) (s : ℕ) (msg : Message)
    → Protocol.run closed (message_calls brokers topic s msg) ≡ some closed
unfolding message_calls Protocol.run
message_calls-run brokers topic s msg = ground arith

polled_calls-run :
    (brokers topic : Text) (s : ℕ) (p : Polled)
    → Protocol.run closed (polled_calls brokers topic s p) ≡ some closed
unfolding polled_calls Protocol.run
polled_calls-run brokers topic s (message msg) = message_calls-run brokers topic s msg
polled_calls-run brokers topic s failed = refl

round-life :
    (brokers topic : Text) (s : ℕ) (p : Polled)
    → life subscribed (round_acts brokers topic s p) ≡ some subscribed
unfolding round_acts life
round-life brokers topic s p =
    life-agents closed closed (polled_calls brokers topic s p) (message_delete ∷ [])
      (polled_calls-run brokers topic s p)

loop-life :
    (brokers topic : Text) (ticks : List Tick)
    → life subscribed (consume_loop brokers topic ticks).0 ≡ some subscribed
unfolding consume_loop life
loop-life brokers topic [] = refl
loop-life brokers topic (stops ∷ ticks) = refl
loop-life brokers topic (round s p ∷ ticks) =
    life-append subscribed subscribed (round_acts brokers topic s p) _
      (round-life brokers topic s p)
    ∙ loop-life brokers topic ticks

-- Where the consumer stands: gone with an exit code, or in its loop.
abbrev pub standing : Option ℕ → Stage
standing none = subscribed
standing (some code) = idle

after_loop-life :
    (r : List Act × Bool)
    → life subscribed r.0 ≡ some subscribed
    → life subscribed (after_loop r).0 ≡ some (standing (after_loop r).1)
unfolding after_loop life
after_loop-life (acts, true) h = life-append subscribed subscribed acts _ h
after_loop-life (acts, false) h = h

run_consumer-life :
    (brokers topic : Text) (subscribes : Bool) (ticks : List Tick)
    → let r = run_consumer brokers topic subscribes ticks in life ready r.0 ≡ some (standing r.1)
unfolding run_consumer prepend life
run_consumer-life brokers topic false ticks = refl
run_consumer-life brokers topic true ticks =
    after_loop-life (consume_loop brokers topic ticks) (loop-life brokers topic ticks)

-- Whatever librdkafka answers and however the polls go, the consumer starts the agent before all else and
-- keeps to the order: configuration, consumer and every message are deleted exactly once, a span is made
-- only while its message is held and is ended before that is deleted, and the consumer is closed before it
-- is deleted. While there is no exit code it is in its loop with no message and no span; when there is one
-- nothing of librdkafka is left.
pub main-life :
    (env : Environ) (answers : Answers) (ticks : List Tick)
    → let r = main env answers ticks in life booting r.0 ≡ some (standing r.1)
unfolding main created prepend life
main-life env answers ticks = by_answers answers.creates answers.subscribes
  where
    by_answers :
        (creates subscribes : Bool)
        → let r = main env (record { creates = creates; subscribes = subscribes }) ticks in
          life booting r.0 ≡ some (standing r.1)
    by_answers false subscribes = refl
    by_answers true subscribes = run_consumer-life _ (lit "test-topic") subscribes ticks
