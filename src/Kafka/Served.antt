-- ===== src/Kafka/Served.antt =====
-- Whole requests to the Kafka producer.
use pinpoint_cpp_examples.Common.{
  ℕ, ◌≡◌, refl, ◌∙◌, ap, Bool, true, false, Option, none, some, ◌++◌, arith, Text, if◌then◌else◌,
  lit,
}
use pinpoint_cpp_examples.Trace.{kafka}
use pinpoint_cpp_examples.Trace.Program.{World, ◌>>=◌}
use pinpoint_cpp_examples.Trace.Protocol.{closed, open_span, run}
use pinpoint_cpp_examples.Trace.Goes.{Gives-map, Goes, continue-Goes, scoped-Goes, run-new_span}
use pinpoint_cpp_examples.Http.{Request, Response, set_content}
use pinpoint_cpp_examples.Kafka.Headers.{set_all}
use pinpoint_cpp_examples.Kafka.Producer.{
  RdKafka, Globals, delivered, produce_under, produce_message, respond, finish, payload_of,
  handle_run_producer,
}

-- Whether a message is accepted.
abbrev pub accepted : Option Text → Bool
accepted none = true
accepted (some error) = false

abbrev pub response_of : Response → Text → Bool → Response
response_of res payload true =
    set_content (lit "Message sent to Kafka: " ++ payload) (lit "text/plain")
      (record res { status = 200 })
response_of res payload false =
    set_content (lit "Failed to send message to Kafka") (lit "text/plain")
      (record res { status = 500 })

module _ (rd : RdKafka) (globals : Globals) (s : ℕ) where
  delivered_lem :
      (resp : Option Text) (w : World rd.Env)
      → Goes
          (open_span s 1)
          (open_span s 1)
          (λ ok. ok ≡ accepted resp)
          (delivered rd globals 0 resp 1 w)
  unfolding delivered run ◌>>=◌
  delivered_lem none w = (refl, refl)
  delivered_lem (some error) w = (refl, refl)

  -- What librdkafka says to a message that is produced in this environment.
  abbrev pub answer : Text → rd.Env → Option Text
  answer payload env =
      (rd.produce globals.topic payload
        (set_all rd.headers_api (rd.context env).0 (some rd.headers_api.create))
        (rd.context env).1).0

  -- Without a producer nothing is accepted.
  abbrev pub sent : Text → rd.Env → Bool
  sent payload env = if globals.has_producer then accepted (answer payload env) else false

  produce_under_lem :
      (payload : Text) (w : World rd.Env)
      → Goes
          (open_span s 1)
          (open_span s 1)
          (λ ok. ok ≡ accepted (answer payload w.env))
          (produce_under rd globals payload 0 1 w)
  unfolding produce_under run ◌>>=◌
  produce_under_lem payload w = delivered_lem (answer payload w.env) _

  produce_message_lem :
      (payload : Text) (w : World rd.Env)
      → Goes
          (open_span s 0)
          (open_span s 0)
          (λ ok. ok ≡ sent payload w.env)
          (produce_message rd globals payload (some s) 0 w)
  unfolding produce_message run ◌>>=◌
  produce_message_lem payload w = by_producer globals.has_producer
    where
      by_producer :
          (b : Bool)
          → Goes
              (open_span s 0)
              (open_span s 0)
              (λ ok. ok ≡ (if b then accepted (answer payload w.env) else false))
              (produce_message rd (record globals { has_producer = b }) payload (some s) 0 w)
      by_producer true =
          scoped-Goes s 0 (λ ok. ok ≡ accepted (answer payload w.env)) (lit "KafkaProduce") kafka
            (produce_under rd globals payload) w (produce_under_lem payload w)
      by_producer false = (refl, refl)

module _ (rd : RdKafka) (globals : Globals) (s : ℕ) (req : Request) (res : Response) where
  finish_lem :
      (payload : Text) (ok : Bool) (w : World rd.Env)
      → Goes
          (open_span s 0)
          closed
          (λ done. done ≡ response_of res payload ok)
          (finish rd globals s req res payload ok 0 w)
  unfolding finish respond run ◌>>=◌
  finish_lem payload true w = (ground arith, refl)
  finish_lem payload false w = (ground arith, refl)

  -- Every request to the Kafka producer gets a response, and its span ends with no event open. The response
  -- has status 200 and shows the payload if there is a producer and it accepts the message, and has status
  -- 500 otherwise. The payload is the request's `message`, or else names the time.
  pub producer_request-Ended :
      (w : World rd.Env)
      → let payload = payload_of rd globals req (rd.now w.env).0 in
        Goes closed closed
          (λ done. done ≡ response_of res payload (sent rd globals s payload (rd.now w.env).1))
          (handle_run_producer rd globals s req res 0 w)
  unfolding handle_run_producer ◌>>=◌
  producer_request-Ended w =
      let payload = payload_of rd globals req (rd.now w.env).0 in
      let v = record w { env = (rd.now w.env).1 } in
      let r = produce_message rd globals payload (some s) 0 v in
      let (went, gives) = produce_message_lem rd globals s payload v in
      let ok = sent rd globals s payload v.env in
      let done_of : Response → Type 0 = λ done. done ≡ response_of res payload ok in
      let whole =
        continue-Goes (open_span s 0) (open_span s 0) closed (λ x. x ≡ ok) done_of r.out r.log
          r.world (λ x. finish rd globals s req res payload x 0) went gives
          λ x e.
            let (ended, same) = finish_lem payload x r.world in
            (
              ended,
              Gives-map (λ done. done ≡ response_of res payload x) done_of _
                  (λ done shown. shown ∙ ap (response_of res payload) e) same,
            ) in
      (run-new_span s _ _ _ _ _ ∙ whole.0, whole.1)
