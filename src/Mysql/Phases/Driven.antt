-- ===== src/Mysql/Phases/Driven.antt =====
-- The programs of the MySQL example along the machine of `Mysql/Phases`.
use pinpoint_cpp_examples.Common.{
  ℕ, suc, ◌≡◌, refl, ap, Bool, true, false, Option, none, some, List, [], ◌∷◌, Text,
}
use pinpoint_cpp_examples.Trace.{EventOp, set_sql_query, on_event}
use pinpoint_cpp_examples.Trace.Program.{Program, Exception, Answer, value, throws, pure, emit}
use pinpoint_cpp_examples.Trace.Attempts.{Parts}
use pinpoint_cpp_examples.Trace.Drives.{
  Drives, Drives-pure, Drives-ask, Drives-try, Drives-if, Drives-bind, Drives-emit,
  Drives-get_span_context, Drives-set_span_context, Drives-scoped,
}
use pinpoint_cpp_examples.Trace.Drives.Calls.{Drives-try_set}
use pinpoint_cpp_examples.Http.{
  Request, Response, Handler, wrap_handler, trace_request, trace_response,
}
use pinpoint_cpp_examples.Http.Server.{serve_all}
use pinpoint_cpp_examples.Mysql.Session.{DatabaseConfig, Mysqlx}
use pinpoint_cpp_examples.Mysql.Queries.{
  run_statement, trace_sql_execution, init_sql_span_event, execute_query, error_text,
}
use pinpoint_cpp_examples.Mysql.Demo.{
  Query, select_query, dml, Step, Document, attempt, after_step, run_query, run_queries, run_steps,
  clock, run_demo_handler,
}
use pinpoint_cpp_examples.Mysql.Handlers.{
  answer_demo, try_connect, handle_db_demo, handle_db_status, serve_demo, serve_status,
}
use pinpoint_cpp_examples.Mysql.Phases.{
  waiting, working, Standing, session_step, query_step, Waiting, Working, Somewhere, AfterConnect,
  overlooks, Working-Somewhere, Db, connect-Drives,
}
use pinpoint_cpp_examples.Mysql.Server.{
  Endpoint, db_demo, status, any_options, allow_cors, answer, after_routing, serve,
}

module _ (driver : Mysqlx) (config : DatabaseConfig) where
  -- Code that leaves the phase and the session.
  abbrev Works : {A : Type 0} → Program (Db driver config) A → Type 0
  Works m = Drives session_step Working m (λ a. Working)

  said :
      (e : ℕ) (op : EventOp)
      → ((q : Standing) → query_step op q ≡ some q)
      → Works (emit (on_event e op))
  said e op k = Drives-emit _ (λ q db h. (q, k q, h))

  statement-Works :
      (e : ℕ) (sql : Text) (params : List Text)
      → Works (emit (on_event e (set_sql_query sql params)))
  statement-Works e sql params =
      Drives-emit _
        λ q db h. ((working, true), ap (query_step (set_sql_query sql params)) h.0, (refl, h.1))

  run_statement-Works :
      (sql : Text) (params : List Text) → Works (run_statement driver config sql params)
  unfolding run_statement
  run_statement-Works sql params =
      Drives-try_set (λ db. db.has_session) _ (λ u. pure (true, [])) (λ x. (false, error_text x))
        (λ u. Working) (λ q db h. h.1)
        (λ q db h. executed (driver.execute sql params db.env).0 q _ h)
        (λ u. Drives-pure _ (λ q db h. h))
    where
      executed :
          (a : Answer (Unit {0})) (q : Standing) (db : Db driver config)
          → Working q db
          → Parts {A = Bool × Text}
              (λ u v. Working q v)
              (λ r v. Working q v)
              (λ x. (false, error_text x))
              a
              db
      executed (value u) q db h = h
      executed (throws x) q db h = h

  execute_query-Works :
      (name sql : Text) (params : List Text) → Works (execute_query driver config name sql params)
  unfolding execute_query init_sql_span_event trace_sql_execution
  execute_query-Works name sql params =
      Drives-bind (λ s. Working) Drives-get_span_context
        λ span. Drives-scoped span _ _ _ overlooks λ e.
          Drives-bind (λ u. Working)
            (Drives-bind (λ u. Working) (said e _ (λ q. refl)) (λ u. said e _ (λ q. refl)))
            λ u.
              Drives-bind (λ r. Working) (run_statement-Works sql params)
                λ r.
                  Drives-bind (λ v. Working) (statement-Works e sql params)
                    λ v. Drives-if _ (said e _ (λ q. refl)) (Drives-pure tt (λ q db h. h))

  run_queries-Works : (qs : List Query) → Works (run_queries driver config qs)
  unfolding run_queries run_query
  run_queries-Works [] = Drives-pure tt (λ q db h. h)
  run_queries-Works (select_query sql params ∷ qs) =
      Drives-bind (λ u. Working) (execute_query-Works _ sql params) (λ u. run_queries-Works qs)
  run_queries-Works (dml type sql params ∷ qs) =
      Drives-bind (λ u. Working) (execute_query-Works _ sql params) (λ u. run_queries-Works qs)

  attempt-Works : (step : Step) → Works (attempt driver config step)
  unfolding attempt
  attempt-Works step = Drives-try _ _ (
      Drives-bind (λ u. Working) (run_queries-Works step.queries)
        (λ u. Drives-pure none (λ q db h. h)))

  after_step-Works :
      (rest : Program (Db driver config) Document) (doc : Document) (caught : Option Exception)
      → Works rest
      → Works (after_step driver config rest doc caught)
  unfolding after_step
  after_step-Works rest doc none h = h
  after_step-Works rest doc (some x) h = Drives-pure _ (λ q db i. i)

  run_steps-Works : (steps : List Step) (doc : Document) → Works (run_steps driver config steps doc)
  unfolding run_steps
  run_steps-Works [] doc = Drives-pure doc (λ q db h. h)
  run_steps-Works (step ∷ steps) doc =
      Drives-bind (λ r. Working) (attempt-Works step)
        (λ caught. after_step-Works _ doc caught (run_steps-Works steps _))

  clock-Drives :
      (I : Standing → Bool → Type 0)
      → Drives session_step
          (λ q (db : Db driver config). I q db.has_session)
          (clock driver config)
          (λ n q db. I q db.has_session)
  unfolding clock
  clock-Drives I = Drives-ask _ (λ q db h. h)

  run_demo_handler-Works : Works (run_demo_handler driver config)
  unfolding run_demo_handler
  run_demo_handler-Works =
      Drives-bind (λ s. Working) Drives-get_span_context
        λ span. Drives-scoped span _ _ _ overlooks λ e.
          Drives-bind (λ d. Working) (run_steps-Works _ _)
            λ doc.
              Drives-bind (λ n. Working)
                (clock-Drives (λ q has. (q ≡ (working, true)) × (has ≡ true)))
                (λ n. Drives-pure _ (λ q db h. h))

  answer_demo-Drives :
      (b : Bool)
      → Drives session_step (AfterConnect b) (answer_demo driver config true b) (λ r. Somewhere)
  unfolding answer_demo
  answer_demo-Drives true =
      Drives-bind (λ t. Working) run_demo_handler-Works (λ t. Drives-pure _ Working-Somewhere)
  answer_demo-Drives false = Drives-pure _ (λ q db h. (waiting, h))

  handle_db_demo-Drives :
      (req : Request) (res : Response)
      → Drives session_step Waiting (handle_db_demo driver config true req res) (λ r. Somewhere)
  unfolding handle_db_demo try_connect
  handle_db_demo-Drives req res =
      Drives-bind (λ s. Waiting) Drives-get_span_context
        λ span. Drives-scoped span _ _ _ overlooks λ e.
          Drives-bind (λ a. Somewhere)
            (Drives-try _ _
              (Drives-bind AfterConnect (connect-Drives driver config) answer_demo-Drives))
            (λ a. Drives-pure _ (λ q db h. h))

  handle_db_status-Drives :
      (req : Request) (res : Response)
      → Drives session_step Waiting (handle_db_status driver config true req res) (λ r. Somewhere)
  unfolding handle_db_status
  handle_db_status-Drives req res =
      Drives-bind (λ s. Waiting) Drives-get_span_context
        λ span. Drives-scoped span _ _ _ overlooks λ e.
          Drives-bind (λ n. Waiting) (clock-Drives (λ q has. q ≡ (waiting, has)))
            (λ n. Drives-pure _ (λ q db h. (waiting, h)))

  wrap_handler-Drives :
      (app : Text) (s : ℕ) (handler : Handler (Db driver config)) (req : Request) (res : Response)
      → Drives session_step Waiting (handler req res) (λ r. Somewhere)
      → Drives session_step Waiting (wrap_handler app s handler req res) (λ r. Waiting)
  unfolding wrap_handler trace_request trace_response
  wrap_handler-Drives app s handler req res h =
      Drives-bind (λ u. Waiting)
        (Drives-bind (λ u. Waiting) (Drives-emit _ (λ q db i. (q, refl, i)))
          (λ u. Drives-emit _ (λ q db i. (q, refl, i))))
        λ u.
          Drives-bind (λ u. Waiting) (Drives-set_span_context _)
            λ u.
              Drives-bind (λ r. Somewhere) h
                λ done.
                  Drives-bind (λ u. Waiting)
                    (Drives-bind (λ u. Somewhere) (Drives-emit _ (λ q db i. (q, refl, i)))
                      (λ u.
                        Drives-emit _
                          (λ q db i. ((waiting, q.1), refl, ap (λ x. (waiting, x.1)) i.1))))
                    λ u.
                      Drives-bind (λ u. Waiting) (Drives-set_span_context _)
                        (λ u. Drives-pure done (λ q db i. i))

module _ (driver : Mysqlx) (config : DatabaseConfig) (route : Request → Option Endpoint)
    (blank : Response) where
  answer-Drives :
      (e : Option Endpoint) (s : ℕ) (req : Request) (res : Response)
      → Drives session_step Waiting (answer driver config route blank e s req res) (λ r. Waiting)
  unfolding answer serve_demo serve_status
  answer-Drives (some db_demo) s req res =
      wrap_handler-Drives driver config _ s _ req res (handle_db_demo-Drives driver config req res)
  answer-Drives (some status) s req res =
      wrap_handler-Drives driver config _ s _ req res
        (handle_db_status-Drives driver config req res)
  answer-Drives (some any_options) s req res = Drives-pure _ (λ q db h. h)
  answer-Drives none s req res = Drives-pure _ (λ q db h. h)

  -- A thread that serves requests drives the machine from the waiting phase back to it.
  pub serve_all-Drives :
      (reqs : List Request) (s : ℕ)
      → Drives session_step Waiting
          (serve_all (serve driver config route blank) reqs s)
          (λ rs. Waiting)
  unfolding serve_all serve after_routing allow_cors
  serve_all-Drives [] s = Drives-pure [] (λ q db h. h)
  serve_all-Drives (req ∷ reqs) s =
      Drives-bind (λ r. Waiting) (answer-Drives (route req) s req _)
        λ res.
          Drives-bind (λ rs. Waiting) (serve_all-Drives reqs (suc s))
            (λ rest. Drives-pure _ (λ q db h. h))
