-- ===== src/Kafka/Sent.antt =====
-- What a producer request hands to librdkafka, seen by a librdkafka that keeps a record of it.
use pinpoint_cpp_examples.Common.{
  ℕ, ◌≡◌, refl, sym, ◌∙◌, ap, append-nil, Bool, true, false, Option, none, some, List, [], ◌∷◌,
  ◌++◌, Text,
}
use pinpoint_cpp_examples.Trace.Program.{Program, World}
use pinpoint_cpp_examples.Trace.Shows.{none_of, seen}
use pinpoint_cpp_examples.Trace.Meets.{
  Meets, Meets-quiet, Meets-ask, Meets-pure, Meets-bind, Meets-scoped, Returns-returned,
}
use pinpoint_cpp_examples.Http.{Request, Response}
use pinpoint_cpp_examples.Kafka.Headers.{KeepsLast, get, set_all, last_value, get-set_all}
use pinpoint_cpp_examples.Kafka.Producer.{
  RdKafka, Globals, delivered, produce_under, produce_message, respond, finish, payload_of,
  handle_run_producer,
}

-- A call of `produce`: topic, payload and headers.
abbrev pub Sent : RdKafka → Type 0
Sent rd = Text × Text × Option rd.headers_api.Headers

abbrev pub recording : RdKafka → RdKafka
recording rd = record {
  Env = rd.Env × List (Sent rd);
  headers_api = rd.headers_api;
  produce = λ topic payload headers env.
      let (r, next) = rd.produce topic payload headers env.0 in
      (r, (next, env.1 ++ (topic, payload, headers) ∷ []));
  poll = λ env. (rd.poll env.0, env.1);
  context = λ env. ((rd.context env.0).0, ((rd.context env.0).1, env.1));
  now = λ env. ((rd.now env.0).0, ((rd.now env.0).1, env.1));
}

module _ (rd : RdKafka) (globals : Globals) where
  abbrev Recorded : Type 0
  Recorded = (recording rd).Env

  -- A program that takes the environment `before` to one of which `Q` holds.
  abbrev Takes : {A : Type 0} → Recorded → Program Recorded A → (A → Recorded → Type 0) → Type 0
  Takes before m Q = Meets none_of (λ env. env ≡ before) m [] Q

  -- The messages handed over are these.
  abbrev Handed : {A : Type 0} → List (Sent rd) → A → Recorded → Type 0
  Handed sent a env = env.1 ≡ sent

  delivered-Meets :
      (e : ℕ) (error : Option Text) (sent : List (Sent rd))
      → Meets none_of (Handed sent tt) (delivered (recording rd) globals e error) [] (Handed sent)
  unfolding delivered seen
  delivered-Meets e none sent =
      Meets-bind (Meets-quiet _ refl) λ u.
        Meets-bind (Meets-ask _ {Q = Handed sent} (λ env h. h)) (λ u. Meets-pure _ (λ env h. h))
  delivered-Meets e (some m) sent =
      Meets-bind (Meets-quiet _ refl)
        λ u. Meets-bind (Meets-quiet _ refl) (λ u. Meets-pure _ (λ env h. h))

  -- The message of a payload and of the headers that the agent writes in `env`.
  abbrev pub sent_message : Text → rd.Env → Sent rd
  sent_message payload env = (
    globals.topic,
    payload,
    set_all rd.headers_api (rd.context env).0 (some rd.headers_api.create),
  )

  produce_under-Meets :
      (payload : Text) (e : ℕ) (before : Recorded)
      → Takes before
          (produce_under (recording rd) globals payload e)
          (Handed (before.1 ++ sent_message payload before.0 ∷ []))
  unfolding produce_under seen
  produce_under-Meets payload e before = Meets-bind (Meets-quiet _ refl) λ u.
      Meets-bind (Meets-quiet _ refl) λ u. Meets-bind (Meets-quiet _ refl) λ u.
        Meets-bind (Meets-quiet _ refl) λ u.
          Meets-bind
            (Meets-ask _
              {Q = λ written env. (written ≡ (rd.context before.0).0) × (env.1 ≡ before.1)}
              (λ env h. (ap (λ x. (rd.context x.0).0) h, ap (λ x. x.1) h)))
            λ written.
              Meets-bind
                (Meets-ask _
                  {Q = λ resp. Handed (before.1 ++ sent_message payload before.0 ∷ []) resp}
                  (λ env h. rw (h.0, h.1) refl))
                λ resp. delivered-Meets e resp _

  finish-Meets :
      (span : ℕ) (req : Request) (res : Response) (payload : Text) (success : Bool)
      (sent : List (Sent rd))
      → Meets none_of
          (Handed sent tt)
          (finish (recording rd) globals span req res payload success)
          []
          (Handed sent)
  unfolding finish respond seen
  finish-Meets span req res payload true sent =
      Meets-bind (Meets-pure {I = Handed sent tt} _ {Q = Handed sent} (λ env h. h)) λ done.
        Meets-bind (Meets-quiet _ refl)
          λ u. Meets-bind (Meets-quiet _ refl) (λ u. Meets-pure _ (λ env h. h))
  finish-Meets span req res payload false sent =
      Meets-bind
        (Meets-bind (Meets-quiet _ refl)
          λ u. Meets-pure {I = Handed sent tt} _ {Q = Handed sent} (λ env h. h))
        λ done.
          Meets-bind (Meets-quiet _ refl)
            λ u. Meets-bind (Meets-quiet _ refl) (λ u. Meets-pure _ (λ env h. h))

  -- The messages of a request: one, if there is a producer.
  abbrev pub messages : Bool → Text → rd.Env → List (Sent rd)
  messages true payload env = sent_message payload env ∷ []
  messages false payload env = []

  produce_message-Meets :
      (has : Bool)
      → globals.has_producer ≡ has
      → (payload : Text) (span : ℕ) (before : Recorded)
      → Takes before
          (produce_message (recording rd) globals payload (some span))
          (Handed (before.1 ++ messages has payload before.0))
  unfolding produce_message
  produce_message-Meets true e payload span before =
      rw e (Meets-scoped _ _ _ _ (λ d. produce_under-Meets payload d before))
  produce_message-Meets false e payload span before =
      rw e (Meets-pure false (λ env h. ap (λ x. x.1) h ∙ sym (append-nil before.1)))

  whole :
      (span : ℕ) (req : Request) (res : Response) (before : Recorded)
      → let (seconds, after) = rd.now before.0 in
        Takes before (handle_run_producer (recording rd) globals span req res) (
          Handed
            (before.1 ++ messages globals.has_producer (payload_of rd globals req seconds) after))
  unfolding handle_run_producer payload_of seen
  whole span req res before =
      let (seconds, after) = rd.now before.0 in
      Meets-bind (Meets-quiet _ refl) λ u. Meets-bind (Meets-quiet _ refl) λ u.
        Meets-bind
          (Meets-ask _ {Q = λ n env. (n ≡ seconds) × (env ≡ (after, before.1))}
            (λ env h. (ap (λ x. (rd.now x.0).0) h, ap (λ x. ((rd.now x.0).1, x.1)) h)))
          λ n.
            Meets-bind {xs = []}
              (record {
                at = λ d w i. rw i.0 (
                    (produce_message-Meets globals.has_producer refl
                        (payload_of rd globals req seconds) span (after, before.1)).at
                      d w i.1);
              })
              λ success. finish-Meets span req res _ success _

  -- A request to the producer hands one message to librdkafka if there is a producer, and none if not,
  -- whatever librdkafka answers. The message has the topic, the payload that the request asks for, and
  -- headers in which the consumer's agent reads back what the producer's agent wrote: for every key the
  -- value that was written last under it, and nothing for a key that was not written. librdkafka keeps
  -- headers as it documents.
  pub handle_run_producer-Sent :
      KeepsLast rd.headers_api
      → (span : ℕ) (req : Request) (res : Response) (w : World Recorded)
      → let (seconds, after) = rd.now w.env.0 in
        let payload = payload_of rd globals req seconds in
        let context = (rd.context after).0 in
        let r = handle_run_producer (recording rd) globals span req res 0 w in
        (r.world.env.1 ≡ w.env.1 ++ messages globals.has_producer payload after)
        × ((asked : Text)
            → get rd.headers_api (sent_message payload after).2 asked
              ≡ last_value asked context none)
  handle_run_producer-Sent law span req res w =
      let (done, returned, sent) =
        Returns-returned
          (Handed (
            w.env.1
            ++ messages globals.has_producer (payload_of rd globals req (rd.now w.env.0).0)
                (rd.now w.env.0).1))
          _ _ ((whole span req res w.env).at 0 w refl).0 in
      (sent, λ asked. get-set_all rd.headers_api law asked _)
