-- ===== src/Mysql/Server/Served.antt =====
-- What a thread of the MySQL example's server answers and leaves behind.
use pinpoint_cpp_examples.Common.{
  ℕ, ◌≡◌, refl, sym, ap, subst, ◌∙◌, Bool, true, false, Option, none, some, List, [], ◌∷◌, ◌++◌,
  append_assoc, Text, lit, inl, inr,
}
use pinpoint_cpp_examples.Trace.Program.{
  Exception, Answer, throws, Answer-cases, try_catch, World, Outcome, returned, ◌>>=◌,
}
use pinpoint_cpp_examples.Trace.Protocol.{run}
use pinpoint_cpp_examples.Trace.Balanced.{Anything}
use pinpoint_cpp_examples.Trace.Meets.{
  Meets, Meets-bind, Meets-scoped, Meets-get_span_context, Meets-pure, Meets-ask, Returns,
  Returns-returned,
}
use pinpoint_cpp_examples.Http.{Request, Response, set_content}
use pinpoint_cpp_examples.Http.Wrapped.{wrap_handler-Ended, wrap_handler-log}
use pinpoint_cpp_examples.Http.Server.{
  Serves, Serves-pure, Serves-bind, Serves-weaken, serve_all-Serves, Responses, Leaves,
}
use pinpoint_cpp_examples.Mysql.Session.{
  DatabaseConfig, Mysqlx, Database, connection_string, close_session, disconnect,
}
use pinpoint_cpp_examples.Mysql.Demo.{clock}
use pinpoint_cpp_examples.Mysql.Handlers.{handle_db_status, serve_demo, serve_status, status_body}
use pinpoint_cpp_examples.Mysql.Traced.{sql_text, handle_db_status-IsBalanced}
use pinpoint_cpp_examples.Mysql.Served.{Answered, respond, db_request-Ended}
use pinpoint_cpp_examples.Mysql.Server.{
  Endpoint, db_demo, status, any_options, allow_cors, answer_options, answer, after_routing, serve,
  run_server, Exit, exited, terminated, destroy_demo,
}

abbrev pub cors_headers : List (Text × Text)
cors_headers =
    (lit "Access-Control-Allow-Origin", lit "*")
    ∷ (lit "Access-Control-Allow-Methods", lit "GET, POST, OPTIONS")
    ∷ (lit "Access-Control-Allow-Headers", lit "Content-Type, Authorization")
    ∷ []

-- The status page.
abbrev pub status_page : ℕ → Response → Response
status_page seconds res = record (set_content (status_body seconds) (lit "application/json") res) {
  status = 200;
}

-- What each endpoint makes of a response that has been through the pre-routing handler.
abbrev pub Answers : Option Endpoint → Response → Response → Type 0
Answers (some db_demo) res done =
    (a : Answer (Unit {0})) × ((r : ℕ × Text) × Answered a r × (done ≡ respond res r))
Answers (some status) res done = (seconds : ℕ) × (done ≡ status_page seconds res)
Answers (some any_options) res done = done ≡ res
Answers none res done = done ≡ res

gives_headers :
    (e : Option Endpoint) (res done : Response) → Answers e res done → done.headers ≡ res.headers
gives_headers (some db_demo) res done (a, (r, answered, e)) = ap (λ x. x.headers) e
gives_headers (some status) res done (seconds, e) = ap (λ x. x.headers) e
gives_headers (some any_options) res done e = ap (λ x. x.headers) e
gives_headers none res done e = ap (λ x. x.headers) e

returned-Returns :
    {W A : Type 0} (Q : A → W → Type 0) (o : Outcome A) (a : A) (w : W)
    → o ≡ returned a
    → Q a w
    → Returns Q o w
returned-Returns Q o a w e h = subst (λ x. Returns Q x w) (sym e) h

module _ (driver : Mysqlx) (config : DatabaseConfig) where
  -- The status page never fails.
  handle_db_status-Meets :
      (req : Request) (res : Response)
      → Meets sql_text Anything
          (handle_db_status driver config true req res)
          []
          (λ done db. (seconds : ℕ) × (done ≡ status_page seconds res))
  unfolding handle_db_status clock
  handle_db_status-Meets req res = Meets-bind Meets-get_span_context λ span.
      Meets-scoped span _ _ _ λ e.
        Meets-bind (Meets-ask _ {Q = λ n. Anything} (λ db h. tt))
          (λ seconds. Meets-pure _ (λ db h. (seconds, refl)))

  status-Serves :
      (s : ℕ) (req : Request) (res : Response)
      → Serves Anything
          (serve_status driver config true s req res)
          (λ done db. Answers (some status) res done)
  unfolding serve_status
  status-Serves s req res = record {
    at = λ w c i.
        let handler = handle_db_status driver config true in
        let inner = (handle_db_status-Meets req res).at 0 (record w { current = some s }) tt in
        let (done, returns, shows) =
          Returns-returned (λ d (db : Database driver.Env). Answers (some status) res d) _ _
            inner.0 in
        let ended =
          wrap_handler-Ended Anything _ s handler req res w done
            (handle_db_status-IsBalanced driver config true req res) tt returns in
        (
          ended.0,
          ended.1,
          returned-Returns _ _ done _
              (wrap_handler-log Anything _ s handler req res w done returns).1 shows,
        );
  }

  demo-Serves :
      (s : ℕ) (req : Request) (res : Response)
      → Serves Anything
          (serve_demo driver config true s req res)
          (λ done db. Answers (some db_demo) res done)
  demo-Serves s req res = record {
    at = λ w c i.
        let (ended, (r, answered, e), shown) = db_request-Ended driver config s req res w in
        (
          ended.0,
          ended.1,
          returned-Returns _ _ (respond res r) _ e
              ((driver.open_session (connection_string config) w.env.env).0, (r, answered, refl)),
        );
  }

module _ (driver : Mysqlx) (config : DatabaseConfig) (route : Request → Option Endpoint)
    (blank : Response) where
  answer-Serves :
      (e : Option Endpoint) (s : ℕ) (req : Request) (res : Response)
      → Serves Anything
          (answer driver config route blank e s req res)
          (λ done db. Answers e res done)
  unfolding answer answer_options
  answer-Serves (some db_demo) s req res = demo-Serves driver config s req res
  answer-Serves (some status) s req res = status-Serves driver config s req res
  answer-Serves (some any_options) s req res = Serves-pure res (λ db h. refl)
  answer-Serves none s req res = Serves-pure res (λ db h. refl)

  -- The response of a request: the headers, and what the endpoint makes of it.
  abbrev pub AnsweredWith : Request → Response → Type 0
  AnsweredWith req done =
      Answers (route req) (allow_cors req blank).1 done
      × (done.headers ≡ blank.headers ++ cors_headers)

  allow_cors_lem :
      (req : Request) → (allow_cors req blank).1.headers ≡ blank.headers ++ cors_headers
  unfolding allow_cors
  allow_cors_lem req = rw (append_assoc, append_assoc)

  serve-Serves :
      (s : ℕ) (req : Request)
      → Serves Anything
          (serve driver config route blank s req)
          (λ done db. AnsweredWith req done × Anything db)
  unfolding serve after_routing allow_cors
  serve-Serves s req =
      Serves-weaken (answer-Serves (route req) s req (allow_cors req blank).1)
        λ done db h. ((h, gives_headers (route req) _ done h ∙ allow_cors_lem req), tt)

  -- How the program may end: without a session, or, if `close` throws, terminated with the session.
  abbrev pub EndsWith : Exit → Database driver.Env → Type 0
  EndsWith exited db = db.has_session ≡ false
  EndsWith terminated db =
      (db.has_session ≡ true)
      × ((env : driver.Env) × ((x : Exception) × ((driver.close env).0 ≡ throws x)))

  destroy_demo-Serves : Serves Anything (destroy_demo driver config route blank) EndsWith
  unfolding destroy_demo disconnect close_session try_catch ◌>>=◌ run
  destroy_demo-Serves = record { at = λ w c i. ends w.env.has_session w c refl }
    where
      ends :
          (b : Bool) (w : World (Database driver.Env))
          → w.current ≡ none
          → w.env.has_session ≡ b
          → Leaves EndsWith (destroy_demo driver config route blank 0 w)
      ends true w c e = elim (Answer-cases (driver.close w.env.env).0) [
        | inl (u, returns) ↦ rw (e, returns) (refl, c, refl)
        | inr (x, throwing) ↦ rw (e, throwing) (refl, c, (refl, (w.env.env, (x, throwing))))
      ]
      ends false w c e = rw e (refl, c, refl)

  -- A thread that serves any requests, one after the other, returns without a fault, with every span ended
  -- before the next is made and the thread's span cleared.  Each response has the CORS headers behind those
  -- that it starts with; the demo answers with 200 and its document or with 503, the status page with 200,
  -- and OPTIONS and a path that nobody registered leave the response alone. In the end there is no session,
  -- unless `close` throws in the destructor: then the program is terminated and the session still there.
  pub run_server-Leaves :
      (reqs : List Request) (w : World (Database driver.Env))
      → w.current ≡ none
      → Leaves
          (λ (responses, exit) db. Responses AnsweredWith reqs responses × EndsWith exit db)
          (run_server driver config route blank reqs 0 w)
  unfolding run_server
  run_server-Leaves reqs w c =
      (Serves-bind (λ rs db. Responses AnsweredWith reqs rs × Anything db)
          (serve_all-Serves AnsweredWith (serve driver config route blank) serve-Serves reqs 0)
          λ rs. record {
            at = λ v e h.
                (Serves-bind {I = Anything} EndsWith destroy_demo-Serves
                    (λ exit. Serves-pure (rs, exit) (λ db ends. (h.0, ends)))).at
                  v e tt;
          }).at
        w c tt
