-- ===== src/Mysql/Phases.antt =====
-- Where a thread of the MySQL example stands between two calls, and whether there is a session, as a
-- machine on its log.
pub mod Driven
use pinpoint_cpp_examples.Common.{
  ℕ, suc, ◌≡◌, refl, ap, Bool, true, false, Option, none, some, List, [], ◌∷◌, Text,
}
use pinpoint_cpp_examples.Trace.{
  Call, EventOp, Resource, mysql_session, set_sql_query, acquire, on_event, end_span,
}
use pinpoint_cpp_examples.Trace.Program.{Program, Exception, Answer, value, throws}
use pinpoint_cpp_examples.Trace.Attempts.{Parts}
use pinpoint_cpp_examples.Trace.Drives.{
  Drives, Overlooks, Drives-pure, Drives-ask, Drives-try, Drives-if, Drives-bind, Drives-emit,
  Drives-get_span_context, Drives-set_span_context, Drives-scoped,
}
use pinpoint_cpp_examples.Trace.Drives.Calls.{Drives-try_ask}
use pinpoint_cpp_examples.Trace.Drives.Calls.{Drives-try_set}
use pinpoint_cpp_examples.Http.{Request, Response, Handler, wrap_handler}
use pinpoint_cpp_examples.Http.Server.{serve_all}
use pinpoint_cpp_examples.Mysql.Session.{
  DatabaseConfig, Mysqlx, Database, connection_string, connect, opened, make_session, take_session,
}
use pinpoint_cpp_examples.Mysql.Queries.{
  run_statement, trace_sql_execution, init_sql_span_event, execute_query, error_text,
}
use pinpoint_cpp_examples.Mysql.Demo.{
  Query, select_query, dml, Step, Document, attempt, after_step, run_query, run_queries, run_steps,
  clock, run_demo_handler,
}
use pinpoint_cpp_examples.Mysql.Handlers.{
  answer_demo, try_connect, handle_db_demo, handle_db_status, serve_demo, serve_status,
}

-- A thread waits for a request, or for a session to be made; or it works with a session.
pub data Phase : Type 0 where
  waiting : Phase
  working : Phase

abbrev pub Standing : Type 0
Standing = Phase × Bool

abbrev pub take_step : Resource → Standing → Option Standing
take_step mysql_session (waiting, has) = some (working, true)
take_step mysql_session (working, has) = none
take_step _ q = some q

abbrev pub query_step : EventOp → Standing → Option Standing
query_step (set_sql_query sql params) (working, true) = some (working, true)
query_step (set_sql_query sql params) _ = none
query_step _ q = some q

-- A session is made in the waiting phase, a statement is traced in the working phase and while there is
-- a session, and the end of the span ends the request.
abbrev pub session_step : Standing → Call → Option Standing
session_step q (acquire r) = take_step r q
session_step q (on_event e op) = query_step op q
session_step q (end_span s) = some (waiting, q.1)
session_step q _ = some q

pub overlooks : Overlooks session_step
overlooks = (λ s span e name type. refl, λ s e. refl)

module _ {E : Type 0} where
  abbrev pub Waiting : Standing → Database E → Type 0
  Waiting q db = q ≡ (waiting, db.has_session)

  abbrev pub Working : Standing → Database E → Type 0
  Working q db = (q ≡ (working, true)) × (db.has_session ≡ true)

  -- In one phase or the other.
  abbrev pub Somewhere : Standing → Database E → Type 0
  Somewhere q db = (p : Phase) × (q ≡ (p, db.has_session))

  abbrev pub AfterConnect : Bool → Standing → Database E → Type 0
  AfterConnect true = Working
  AfterConnect false = Waiting

  pub Working-Somewhere : (q : Standing) (db : Database E) → Working q db → Somewhere q db
  Working-Somewhere q db (e, h) = (working, rw (e, h) refl)

module _ (driver : Mysqlx) (config : DatabaseConfig) where
  abbrev pub Db : Type 0
  Db = Database driver.Env

  -- A new session is there and not yet counted.
  abbrev Made : Bool → Standing → Db → Type 0
  Made had q db = (h : Bool) × (q ≡ (waiting, h)) × (db.has_session ≡ true)

  opened_lem :
      (a : Answer (Unit {0})) (env : driver.Env) (q : Standing) (db : Db)
      → Waiting q db
      → let (b, after) = opened driver config a env db in
        Parts (λ had v. Made had q v) (λ r v. AfterConnect r q v) (λ x. false) b after
  unfolding opened
  opened_lem (value u) env q db h = (db.has_session, h, refl)
  opened_lem (throws x) env q db h = h

  pub connect-Drives : Drives session_step Waiting (connect driver config) AfterConnect
  unfolding connect take_session make_session
  connect-Drives =
      Drives-try_ask (make_session driver config) (take_session driver config) (λ x. false) Made
        (λ q db h. opened_lem _ _ q db h)
        λ had.
          Drives-bind (λ u. Working)
            (Drives-emit _
              λ q db (h, e, set). ((working, true), ap (take_step mysql_session) e, (refl, set)))
            λ u.
              Drives-bind (λ v. Working)
                (Drives-if had (Drives-emit _ (λ q db h. (q, refl, h)))
                  (Drives-pure tt (λ q db h. h)))
                (λ v. Drives-pure true (λ q db h. h))
