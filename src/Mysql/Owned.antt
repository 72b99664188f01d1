-- ===== src/Mysql/Owned.antt =====
-- Who owns the sessions of the MySQL example.
use pinpoint_cpp_examples.Common.{
  ℕ, ◌≡◌, refl, Bool, true, false, Option, none, some, List, [], ◌∷◌, Text,
}
use pinpoint_cpp_examples.Trace.Program.{
  Program, Exception, Answer, value, throws, pure, ask, try_catch, ◌>>=◌, ◌>>◌,
}
use pinpoint_cpp_examples.Trace.Drives.{drive}
use pinpoint_cpp_examples.Mysql.Ownership.{
  settled, own_step, Accounts, accounted, Accounts-ask, Accounts-bind, Accounts-pure, Accounts-need,
  Accounts-try_catch,
}
use pinpoint_cpp_examples.Mysql.Server.{exited, terminated}
use pinpoint_cpp_examples.Http.{Request, Response, Handler, wrap_handler}
use pinpoint_cpp_examples.Mysql.Session.{
  DatabaseConfig, Mysqlx, Database, connection_string, connect, opened, make_session, take_session,
  close_session, disconnect,
}
use pinpoint_cpp_examples.Mysql.Queries.{
  run_statement, trace_sql_execution, init_sql_span_event, execute_query,
}
use pinpoint_cpp_examples.Mysql.Demo.{
  Query, select_query, dml, Step, Document, attempt, after_step, run_query, run_queries, run_steps,
  clock, run_demo_handler,
}
use pinpoint_cpp_examples.Mysql.Handlers.{
  answer_demo, try_connect, handle_db_demo, handle_db_status,
}

abbrev pub Owns : {E A : Type 0} → Program (Database E) A → Type 0
Owns m = Accounts (λ db. db.has_session) m

module _ (driver : Mysqlx) (config : DatabaseConfig) where
  connected :
      (a : Answer (Unit {0})) (had : Bool) (env after : driver.Env) (d : ℕ) (current : Option ℕ)
      → let db : Database driver.Env = record { has_session = had; env = env } in
        let m =
          try_catch
            (ask (λ u. opened driver config a after u) >>= take_session driver config)
            (λ x. pure false) in
        let r = m d (record { current = current; env = db }) in
        drive own_step (settled db.has_session) r.log ≡ some (settled r.world.env.has_session)
  unfolding try_catch ◌>>=◌ opened take_session drive own_step
  connected (value u) true env after d current = refl
  connected (value u) false env after d current = refl
  connected (throws x) true env after d current = refl
  connected (throws x) false env after d current = refl

  connect-Owns : Owns (connect driver config)
  unfolding connect make_session try_catch ◌>>=◌
  connect-Owns = record {
    at = λ d w.
        let (a, env) = driver.open_session (connection_string config) w.env.env in
        connected a w.env.has_session w.env.env env d w.current;
  }

  closes :
      (a : Answer (Unit {0})) (had : Bool) (env : driver.Env) (d : ℕ) (current : Option ℕ)
      → (driver.close env).0 ≡ a
      → let db : Database driver.Env = record { has_session = had; env = env } in
        let r =
          try_catch
            (disconnect driver config >> pure exited)
            (λ x. pure terminated)
            d
            (record { current = current; env = db }) in
        drive own_step (settled db.has_session) r.log ≡ some (settled r.world.env.has_session)
  unfolding disconnect close_session try_catch ◌>>=◌ drive own_step
  closes (value u) true env d current e = rw e refl
  closes (throws x) true env d current e = rw e refl
  closes a false env d current e = refl

  pub destroy-Owns :
      Owns (try_catch (disconnect driver config >> pure exited) (λ x. pure terminated))
  destroy-Owns = record {
    at = λ d w. closes (driver.close w.env.env).0 w.env.has_session w.env.env d w.current refl;
  }

  clock-Owns : Owns (clock driver config)
  unfolding clock
  clock-Owns = Accounts-ask _ (λ db. refl)

  run_statement-Owns :
      (sql : Text) (params : List Text) → Owns (run_statement driver config sql params)
  unfolding run_statement
  run_statement-Owns sql params =
      Accounts-try_catch _ _
        (Accounts-bind _ _ (Accounts-need _)
          λ u. Accounts-bind _ _ (Accounts-ask _ (λ db. refl)) λ v. Accounts-pure _)
        (λ x. Accounts-pure _)

  execute_query-Owns :
      (name sql : Text) (params : List Text) → Owns (execute_query driver config name sql params)
  unfolding execute_query init_sql_span_event trace_sql_execution
  execute_query-Owns name sql params = search (accounted, run_statement-Owns) depth 20

  run_queries-Owns : (qs : List Query) → Owns (run_queries driver config qs)
  unfolding run_queries run_query
  run_queries-Owns [] = Accounts-pure tt
  run_queries-Owns (select_query sql params ∷ qs) =
      Accounts-bind _ _ (execute_query-Owns _ sql params) (λ u. run_queries-Owns qs)
  run_queries-Owns (dml type sql params ∷ qs) =
      Accounts-bind _ _ (execute_query-Owns _ sql params) (λ u. run_queries-Owns qs)

  attempt-Owns : (step : Step) → Owns (attempt driver config step)
  unfolding attempt
  attempt-Owns step = search (accounted, run_queries-Owns) depth 12

  after_step-Owns :
      (rest : Program (Database driver.Env) Document) (doc : Document) (caught : Option Exception)
      → Owns rest
      → Owns (after_step driver config rest doc caught)
  unfolding after_step
  after_step-Owns rest doc none h = h
  after_step-Owns rest doc (some x) h = Accounts-pure _

  run_steps-Owns : (steps : List Step) (doc : Document) → Owns (run_steps driver config steps doc)
  unfolding run_steps
  run_steps-Owns [] doc = Accounts-pure doc
  run_steps-Owns (step ∷ steps) doc =
      Accounts-bind _ _ (attempt-Owns step)
        (λ caught. after_step-Owns _ doc caught (run_steps-Owns steps _))

  run_demo_handler-Owns : Owns (run_demo_handler driver config)
  unfolding run_demo_handler
  run_demo_handler-Owns = search (accounted, run_steps-Owns, clock-Owns) depth 20

  answer_demo-Owns : (b : Bool) → Owns (answer_demo driver config true b)
  unfolding answer_demo
  answer_demo-Owns true = Accounts-bind _ _ run_demo_handler-Owns (λ t. Accounts-pure _)
  answer_demo-Owns false = Accounts-pure _

  pub handle_db_demo-Owns :
      (req : Request) (res : Response) → Owns (handle_db_demo driver config true req res)
  unfolding handle_db_demo try_connect
  handle_db_demo-Owns req res = search (accounted, connect-Owns, answer_demo-Owns) depth 20

  pub handle_db_status-Owns :
      (req : Request) (res : Response) → Owns (handle_db_status driver config true req res)
  unfolding handle_db_status
  handle_db_status-Owns req res = search (accounted, clock-Owns) depth 20

  pub wrap_handler-Owns :
      (app : Text) (s : ℕ) (handler : Handler (Database driver.Env)) (req : Request)
      (res : Response)
      → Owns (handler req res)
      → Owns (wrap_handler app s handler req res)
  unfolding wrap_handler
  wrap_handler-Owns app s handler req res h = search accounted depth 30
