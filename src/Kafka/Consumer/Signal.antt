-- ===== src/Kafka/Consumer/Signal.antt =====
-- The consumer and the signal that stops it.
use pinpoint_cpp_examples.Common.{
  ℕ, ◌≡◌, refl, ap, ◌∙◌, Bool, true, Option, some, List, [], ◌∷◌, ◌++◌, append-nil, append_assoc,
  Text, lit,
}
use pinpoint_cpp_examples.Common.Environ.{Environ, getenv, set_defaults}
use pinpoint_cpp_examples.Trace.{Call}
use pinpoint_cpp_examples.Trace.Shows.{api_text, seen, seen-append}
use pinpoint_cpp_examples.Kafka.Consumer.{
  Polled, message, failed, Tick, stops, round, Act, start_agent, global_agent, agent, conf_create,
  conf_delete, consumer_create, subscribe, message_delete, consumer_close, consumer_delete,
  record_text, message_calls, agents, polled_calls, round_acts, consume_loop, after_loop, prepend,
  run_consumer, Answers, created, main, brokers_of, defaults,
}

-- The schedule of these rounds, with no signal in it.
abbrev pub ticks_of : List (ℕ × Polled) → List Tick
ticks_of [] = []
ticks_of ((s, p) ∷ rounds) = round s p ∷ ticks_of rounds

abbrev pub rounds_acts : Text → Text → List (ℕ × Polled) → List Act
rounds_acts brokers topic [] = []
rounds_acts brokers topic ((s, p) ∷ rounds) =
    round_acts brokers topic s p ++ rounds_acts brokers topic rounds

-- What the agent is told.
abbrev pub agent_calls : List Act → List Call
agent_calls [] = []
agent_calls (agent c ∷ acts) = c ∷ agent_calls acts
agent_calls (_ ∷ acts) = agent_calls acts

-- The records among these rounds, as the annotation names them.
abbrev pub texts : Text → List (ℕ × Polled) → List Text
texts topic [] = []
texts topic ((s, message msg) ∷ rounds) = record_text topic msg ∷ texts topic rounds
texts topic ((s, failed) ∷ rounds) = texts topic rounds

loop-stops :
    (brokers topic : Text) (rounds : List (ℕ × Polled)) (rest : List Tick)
    → consume_loop brokers topic (ticks_of rounds ++ stops ∷ rest)
      ≡ (rounds_acts brokers topic rounds, true)
unfolding consume_loop
loop-stops brokers topic [] rest = refl
loop-stops brokers topic ((s, p) ∷ rounds) rest =
    ap (λ (r : List Act × Bool). (round_acts brokers topic s p ++ r.0, r.1))
      (loop-stops brokers topic rounds rest)

agent_calls-append : (xs ys : List Act) → agent_calls (xs ++ ys) ≡ agent_calls xs ++ agent_calls ys
agent_calls-append [] ys = refl
agent_calls-append (agent c ∷ xs) ys = ap (◌∷◌ c) (agent_calls-append xs ys)
agent_calls-append (_ ∷ xs) ys = agent_calls-append xs ys

agent_calls-agents : (cs : List Call) → agent_calls (agents cs) ≡ cs
unfolding agents
agent_calls-agents [] = refl
agent_calls-agents (c ∷ cs) = ap (◌∷◌ c) (agent_calls-agents cs)

round-calls :
    (brokers topic : Text) (s : ℕ) (p : Polled)
    → agent_calls (round_acts brokers topic s p) ≡ polled_calls brokers topic s p
unfolding round_acts
round-calls brokers topic s p =
    agent_calls-append (agents (polled_calls brokers topic s p)) (message_delete ∷ [])
    ∙ append-nil _
    ∙ agent_calls-agents (polled_calls brokers topic s p)

rounds-seen :
    (brokers topic : Text) (rounds : List (ℕ × Polled)) (last : List Act)
    → agent_calls last ≡ []
    → seen api_text (agent_calls (rounds_acts brokers topic rounds ++ last)) ≡ texts topic rounds
unfolding seen polled_calls message_calls
rounds-seen brokers topic [] last h = rw h
rounds-seen brokers topic ((s, p) ∷ rounds) last h =
    ap (seen api_text) (
      ap agent_calls
        (append_assoc (round_acts brokers topic s p) (rounds_acts brokers topic rounds) last)
      ∙ agent_calls-append (round_acts brokers topic s p)
          (rounds_acts brokers topic rounds ++ last))
    ∙ seen-append api_text (agent_calls (round_acts brokers topic s p)) _
    ∙ rw (round-calls brokers topic s p, rounds-seen brokers topic rounds last h) (first p)
  where
    first :
        (q : Polled)
        → seen api_text (polled_calls brokers topic s q) ++ texts topic rounds
          ≡ texts topic ((s, q) ∷ rounds)
    first (message msg) = refl
    first failed = refl

main-whole :
    (env : Environ) (answers : Answers) (rounds : List (ℕ × Polled)) (rest : List Tick)
    → answers.creates ≡ true
    → answers.subscribes ≡ true
    → main env answers (ticks_of rounds ++ stops ∷ rest) ≡ (
      start_agent (set_defaults defaults env)
          ∷ global_agent
          ∷ conf_create
          ∷ consumer_create true
          ∷ conf_delete
          ∷ subscribe true
          ∷ (rounds_acts (brokers_of (getenv (lit "KAFKA_BROKERS") env)) (lit "test-topic") rounds
              ++ consumer_close ∷ consumer_delete ∷ []),
      some 0,
    )
unfolding main created run_consumer after_loop prepend
main-whole env answers rounds rest h k =
    rw (h, k)
      (ap
        (λ r.
          prepend
            (start_agent (set_defaults defaults env)
              ∷ global_agent
              ∷ conf_create
              ∷ consumer_create true
              ∷ conf_delete
              ∷ subscribe true
              ∷ [])
            (after_loop r))
        (loop-stops (brokers_of (getenv (lit "KAFKA_BROKERS") env)) (lit "test-topic") rounds rest))

-- A consumer that could subscribe, having started the agent with the user's settings over its defaults,
-- stops at the first test after the signal: it makes the polls before it
-- and no other, then closes and deletes the consumer and exits with 0. Its spans name exactly the records
-- that were polled, in order, and no poll without a record.
pub main-stops :
    (env : Environ) (answers : Answers) (rounds : List (ℕ × Polled)) (rest : List Tick)
    → answers.creates ≡ true
    → answers.subscribes ≡ true
    → let brokers = brokers_of (getenv (lit "KAFKA_BROKERS") env) in
      let topic = lit "test-topic" in
      let r = main env answers (ticks_of rounds ++ stops ∷ rest) in
      (r ≡ (
        start_agent (set_defaults defaults env)
            ∷ global_agent
            ∷ conf_create
            ∷ consumer_create true
            ∷ conf_delete
            ∷ subscribe true
            ∷ (rounds_acts brokers topic rounds ++ consumer_close ∷ consumer_delete ∷ []),
        some 0,
      ))
      × (seen api_text (agent_calls r.0) ≡ texts topic rounds)
main-stops env answers rounds rest h k =
    let whole = main-whole env answers rounds rest h k in
    (
      whole,
      ap (λ (r : List Act × Option ℕ). seen api_text (agent_calls r.0)) whole
          ∙ rounds-seen (brokers_of (getenv (lit "KAFKA_BROKERS") env)) (lit "test-topic") rounds
              (consumer_close ∷ consumer_delete ∷ []) refl,
    )
