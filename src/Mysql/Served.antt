-- ===== src/Mysql/Served.antt =====
-- Whole MySQL requests, through `wrap_handler`.
use pinpoint_cpp_examples.Common.{
  ℕ, ◌≡◌, refl, sym, ap, subst, ◌∙◌, Bool, true, false, some, List, [], Text, lit,
}
use pinpoint_cpp_examples.Trace.Program.{Answer, value, throws, World, returned}
use pinpoint_cpp_examples.Trace.Balanced.{Anything}
use pinpoint_cpp_examples.Trace.Shows.{seen}
use pinpoint_cpp_examples.Trace.Meets.{
  Meets, Meets-pure, Meets-bind, Meets-then, Meets-scoped, Meets-get_span_context, Meets-try,
  Returns-returned,
}
use pinpoint_cpp_examples.Trace.Attempts.{Parts}
use pinpoint_cpp_examples.Http.{Request, Response, set_content}
use pinpoint_cpp_examples.Http.Wrapped.{
  Ended, wrap_handler-Ended, wrap_handler-log, seen-wrap_handler,
}
use pinpoint_cpp_examples.Mysql.Session.{
  DatabaseConfig, Mysqlx, Database, connection_string, opened, connect,
}
use pinpoint_cpp_examples.Mysql.Demo.{script}
use pinpoint_cpp_examples.Mysql.Handlers.{
  answer_demo, try_connect, handle_db_demo, serve_demo, success_body, unavailable_body,
}
use pinpoint_cpp_examples.Mysql.Traced.{
  sql_text, HasSession, connect-Meets, handle_db_demo-IsBalanced,
}
use pinpoint_cpp_examples.Mysql.Shown.{all_statements, Complete, run_demo_handler-Meets}

-- What an attempt to connect whose answer is known leaves.
abbrev Left : {E : Type 0} → Answer (Unit {0}) → Bool → Database E → Type 0
Left (value u) true db = HasSession db
Left (value u) false db = ⊥
Left (throws x) true db = ⊥
Left (throws x) false db = Unit {0}

-- The statements that a request records.
abbrev pub statements_of : Answer (Unit {0}) → List Text
statements_of (value u) = all_statements script
statements_of (throws x) = []

-- The status and the JSON text that a request is answered with.
abbrev pub Answered : Answer (Unit {0}) → ℕ × Text → Type 0
Answered (value u) answer = (text : Text) × Complete text × (answer ≡ (200, success_body text))
Answered (throws x) answer = answer ≡ (503, unavailable_body)

abbrev pub respond : Response → ℕ × Text → Response
respond res answer =
    set_content answer.1 (lit "application/json") (record res { status = answer.0 })

module _ (driver : Mysqlx) (config : DatabaseConfig) (answer : Answer (Unit {0})) where
  -- What the server answers next.
  abbrev Next : Database driver.Env → Type 0
  Next db = (driver.open_session (connection_string config) db.env).0 ≡ answer

  opened-Left :
      (a : Answer (Unit {0})) (env : driver.Env) (db : Database driver.Env)
      → let (b, after) = opened driver config a env db in
        Parts (λ had. Left a true) (Left a) (λ x. false) b after
  unfolding opened
  opened-Left (value u) env db = refl
  opened-Left (throws x) env db = tt

  connect-Left : Meets sql_text Next (connect driver config) [] (Left answer)
  connect-Left = connect-Meets driver config (Left answer) λ db h.
      let env = (driver.open_session (connection_string config) db.env).1 in
      subst
        (λ b.
          let (a, after) = opened driver config b env db in
          Parts (λ had. Left answer true) (Left answer) (λ x. false) a after)
        (sym h) (opened-Left answer env db)

module _ (driver : Mysqlx) (config : DatabaseConfig) where
  answer_demo-Meets :
      (answer : Answer (Unit {0})) (b : Bool)
      → Meets sql_text
          (Left answer b)
          (answer_demo driver config true b)
          (statements_of answer)
          (λ r db. Answered answer r)
  unfolding answer_demo
  answer_demo-Meets (value u) true =
      Meets-then (run_demo_handler-Meets driver config)
        (λ text. Meets-pure _ (λ db h. (text, h, refl)))
  answer_demo-Meets (value u) false = record { at = λ d w i. absurd i }
  answer_demo-Meets (throws x) true = record { at = λ d w i. absurd i }
  answer_demo-Meets (throws x) false = Meets-pure _ (λ db h. refl)

  -- The response carries what was answered.
  abbrev Responded : Answer (Unit {0}) → Response → Response → Type 0
  Responded answer res done = (r : ℕ × Text) × Answered answer r × (done ≡ respond res r)

  handle_db_demo-Meets :
      (answer : Answer (Unit {0})) (req : Request) (res : Response)
      → Meets sql_text
          (Next driver config answer)
          (handle_db_demo driver config true req res)
          (statements_of answer)
          (λ done db. Responded answer res done)
  unfolding handle_db_demo try_connect
  handle_db_demo-Meets answer req res = Meets-bind Meets-get_span_context λ span.
      Meets-scoped span _ _ _ λ e.
        Meets-then
          (Meets-try _ (Meets-bind (connect-Left driver config answer) (answer_demo-Meets answer)))
          (λ r. Meets-pure _ (λ db h. (r, h, refl)))

  -- Every request for the MySQL demo ends its span with no event open and clears the thread's span, and
  -- what the server answers to the attempt to connect decides the rest. If it accepts, the span events record
  -- the fifteen statements of the script in order, whatever becomes of each, and the response has status
  -- 200 and a document in which every operation is reported. If it refuses, nothing is recorded and the
  -- response has status 503.
  pub db_request-Ended :
      (s : ℕ) (req : Request) (res : Response) (w : World (Database driver.Env))
      → let answer = (driver.open_session (connection_string config) w.env.env).0 in
        let r = serve_demo driver config true s req res 0 w in
        Ended r
        × ((a : ℕ × Text) × Answered answer a × (r.out ≡ returned (respond res a)))
        × (seen sql_text r.log ≡ statements_of answer)
  unfolding serve_demo
  db_request-Ended s req res w =
      let answer = (driver.open_session (connection_string config) w.env.env).0 in
      let handler = handle_db_demo driver config true in
      let inner = (handle_db_demo-Meets answer req res).at 0 (record w { current = some s }) refl in
      let (done, returns, (a, answered, e)) =
        Returns-returned (λ d (db : Database driver.Env). Responded answer res d) _ _ inner.0 in
      (
        wrap_handler-Ended Anything _ s handler req res w done
            (handle_db_demo-IsBalanced driver config true req res) tt returns,
        (
          a,
          answered,
          (wrap_handler-log Anything _ s handler req res w done returns).1 ∙ ap returned e,
        ),
        seen-wrap_handler Anything _ s handler req res w sql_text done returns ∙ inner.1,
      )
