-- ===== src/Cpptrace/Sent.antt =====
-- What an /outgoing request hands to cpp-httplib's client, seen by a client that keeps a record of it.
use pinpoint_cpp_examples.Common.{
  ℕ, suc, ◌≤◌, ◌≡◌, refl, sym, ap, ◌∙◌, append-nil, inl, inr, false, Option, none, some, List, [],
  ◌∷◌, ◌++◌, Text, All, lit,
}
use pinpoint_cpp_examples.Trace.Program.{
  Exception, Answer, value, throws, Answer-cases, Program, World, thrown, scoped, ◌>>=◌,
}
use pinpoint_cpp_examples.Trace.{default_type}
use pinpoint_cpp_examples.Cpptrace.Served.{client_of}
use pinpoint_cpp_examples.Trace.Shows.{none_of, seen, bind_thrown}
use pinpoint_cpp_examples.Trace.Meets.{
  Meets, Meets-quiet, Meets-ask, Meets-pure, Meets-bind, Meets-scoped, Meets-get_span_context,
  Returns-returned,
}
use pinpoint_cpp_examples.Http.{Request, Response}
use pinpoint_cpp_examples.Cpptrace.Headers.{
  KeepsPairs, get, set_all, hits, first_hit, get-set_pairs,
}
use pinpoint_cpp_examples.Cpptrace.Handlers.{
  Httplib, Reply, Result, host_of, path_of, target_url, own_headers, told, call_url, answer,
  handle_outgoing,
}

-- A call of `Get`: host, path and headers.
abbrev pub Asked : Httplib → Type 0
Asked http = Text × Text × http.map.Headers

abbrev pub recording : Httplib → Httplib
recording http = record {
  Env = http.Env × List (Asked http);
  map = http.map;
  client = λ host env. ((http.client host env.0).0, ((http.client host env.0).1, env.1));
  get_url = λ host path headers env.
      let (r, next) = http.get_url host path headers env.0 in
      (r, (next, env.1 ++ (host, path, headers) ∷ []));
  context = λ env. ((http.context env.0).0, ((http.context env.0).1, env.1));
}

-- The names of the headers that the handler sets itself.
abbrev pub own_names : List Text
own_names = lit "User-Agent" ∷ lit "Accept" ∷ lit "Accept-Language" ∷ []

module _ (http : Httplib) where
  abbrev Recorded : Type 0
  Recorded = http.Env × List (Asked http)

  -- The calls made are these.
  abbrev Handed : {A : Type 0} → List (Asked http) → A → Recorded → Type 0
  Handed sent a env = env.1 ≡ sent

  -- The headers of a call, with what the agent writes in `env`.
  abbrev pub sent_headers : http.Env → http.map.Headers
  sent_headers env = set_all http.map (http.context env).0 (own_headers http)

  told-Meets :
      (e : ℕ) (r : Result) (reply : Option Reply) (sent : List (Asked http))
      → Meets none_of (Handed sent tt) (told (recording http) e r reply) [] (Handed sent)
  unfolding told seen
  told-Meets e r none sent = Meets-pure _ (λ env h. h)
  told-Meets e r (some reply) sent =
      Meets-bind (Meets-quiet _ refl) (λ u. Meets-pure _ (λ env h. h))

  call_url-Meets :
      (host path url : Text) (e : ℕ) (before : Recorded)
      → (http.client host (http.context before.0).1).0 ≡ value tt
      → Meets none_of
          (λ env. env ≡ before)
          (call_url (recording http) host path url e)
          []
          (Handed (before.1 ++ (host, path, sent_headers before.0) ∷ []))
  unfolding call_url own_headers seen
  call_url-Meets host path url e before made = Meets-bind (Meets-quiet _ refl) λ u.
      Meets-bind (Meets-quiet _ refl) λ u.
        Meets-bind
          (Meets-ask _
            {Q = λ written env.
              (written ≡ (http.context before.0).0) × (env ≡ ((http.context before.0).1, before.1))}
            (λ env h. rw h (refl, refl)))
          λ written.
            Meets-bind
              (Meets-ask _ {Q = λ u env. (written ≡ (http.context before.0).0) × (env.1 ≡ before.1)}
                (λ env h. rw (h.1, made) (h.0, refl)))
              λ u.
                Meets-bind
                  (Meets-ask _
                    {Q = λ r. Handed (before.1 ++ (host, path, sent_headers before.0) ∷ []) r}
                    (λ env h. rw (h.0, h.1) refl))
                  λ r. told-Meets e r r.response _

  call_url-thrown :
      (host path url : Text) (e d : ℕ) (w : World Recorded) (x : Exception)
      → (http.client host (http.context w.env.0).1).0 ≡ throws x
      → let r = call_url (recording http) host path url e d w in
        (r.out ≡ thrown x) × (r.world.env.1 ≡ w.env.1)
  unfolding call_url ◌>>=◌
  call_url-thrown host path url e d w x made = rw made (refl, refl)

  answer-Meets :
      (e : ℕ) (req : Request) (res : Response) (r : Result) (error : Option Text)
      (sent : List (Asked http))
      → Meets none_of (Handed sent tt) (answer (recording http) e req res r error) [] (Handed sent)
  unfolding answer seen
  answer-Meets e req res r none sent = Meets-pure _ (λ env h. h)
  answer-Meets e req res r (some error) sent =
      Meets-bind (Meets-quiet _ refl) (λ u. Meets-pure _ (λ env h. h))

  handle_outgoing-Meets :
      (req : Request) (res : Response) (before : Recorded)
      → (client_of http req before.0).0 ≡ value tt
      → Meets none_of
          (λ env. env ≡ before)
          (handle_outgoing (recording http) req res)
          []
          (Handed (before.1 ++ (host_of req, path_of req, sent_headers before.0) ∷ []))
  unfolding handle_outgoing
  handle_outgoing-Meets req res before made = Meets-bind Meets-get_span_context λ span.
      Meets-scoped span _ _ _ λ e.
        Meets-bind
          (Meets-scoped span _ _ _
            (λ f. call_url-Meets (host_of req) (path_of req) (target_url req) f before made))
          λ r. answer-Meets e req res r r.error _

  handle_outgoing-thrown :
      (req : Request) (res : Response) (d : ℕ) (w : World Recorded) (x : Exception)
      → (client_of http req w.env.0).0 ≡ throws x
      → (handle_outgoing (recording http) req res d w).world.env.1 ≡ w.env.1
  unfolding handle_outgoing ◌>>=◌
  handle_outgoing-thrown req res d w x made =
      let body = call_url (recording http) (host_of req) (path_of req) (target_url req) in
      let m = scoped w.current (lit "httplib::Client.Get") default_type body in
      let called =
        call_url-thrown (host_of req) (path_of req) (target_url req) (suc d) (suc (suc d)) w x
          made in
      let f : Result → Program Recorded Response =
        λ r. answer (recording http) d req res r r.error in
      ap (λ v. v.env.1) (bind_thrown m f (suc d) w x called.0).2 ∙ called.1

  -- The calls that a request makes, by what `Client(host)` did.
  abbrev pub calls_of : Request → http.Env → Answer (Unit {0}) → List (Asked http)
  calls_of req env (value u) = (host_of req, path_of req, sent_headers env) ∷ []
  calls_of req env (throws x) = []

  handle_outgoing-calls :
      (req : Request) (res : Response) (d : ℕ) (w : World Recorded)
      → (handle_outgoing (recording http) req res d w).world.env.1
        ≡ w.env.1 ++ calls_of req w.env.0 (client_of http req w.env.0).0
  handle_outgoing-calls req res d w = elim (Answer-cases (client_of http req w.env.0).0) [
    | inl (u, made) ↦
        let calls = w.env.1 ++ calls_of req w.env.0 (value tt) in
        let (done, returned, same) =
          Returns-returned (Handed calls) _ _
            ((handle_outgoing-Meets req res w.env made).at d w refl).0 in
        rw made same
    | inr (x, made) ↦ rw made (handle_outgoing-thrown req res d w x made ∙ sym (append-nil w.env.1))
  ]

  own_lem :
      KeepsPairs http.map
      → (asked : Text) → All (λ name. http.map.same asked name ≡ false) own_names
      → get http.map (own_headers http) asked ≡ none
  unfolding get own_headers
  own_lem law asked (agent, (accept, (language, u))) =
      law.kept asked _ _ _ language
      ∙ law.kept asked _ _ _ accept
      ∙ law.kept asked _ _ _ agent
      ∙ law.empty_find asked

  -- An /outgoing request makes exactly one call, to the host and the path asked for, if `Client(host)`
  -- returns, and none if it throws. In the headers of the call a reader finds what the agent has written:
  -- under a name that the agent writes once at most and that is none of the handler's own three, the value
  -- written, and nothing if there is none. The multimap keeps pairs as the standard says.
  pub handle_outgoing-Sent :
      KeepsPairs http.map
      → (req : Request) (res : Response) (d : ℕ) (w : World Recorded) (asked : Text)
      → All (λ name. http.map.same asked name ≡ false) own_names
      → hits http.map asked (http.context w.env.0).0 ≤ 1
      → ((handle_outgoing (recording http) req res d w).world.env.1
          ≡ w.env.1 ++ calls_of req w.env.0 (client_of http req w.env.0).0)
        × (get http.map (sent_headers w.env.0) asked
            ≡ first_hit http.map asked (http.context w.env.0).0)
  handle_outgoing-Sent law req res d w asked others once = (
    handle_outgoing-calls req res d w,
    get-set_pairs http.map law asked _ (own_headers http) (own_lem law asked others) once,
  )
