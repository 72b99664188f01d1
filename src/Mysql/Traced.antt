-- ===== src/Mysql/Traced.antt =====
-- The span events of the MySQL requests.
use pinpoint_cpp_examples.Common.{
  ℕ, suc, ◌≡◌, refl, Bool, true, false, Option, none, some, List, [], ◌∷◌, Text,
}
use pinpoint_cpp_examples.Trace.{EventOp, set_sql_query}
use pinpoint_cpp_examples.Trace.Program.{Answer, value, throws, Program, Exception, ◌>>=◌}
use pinpoint_cpp_examples.Trace.Balanced.{
  IsBalanced, Anything, balanced, IsBalanced-bind, IsBalanced-need, IsBalanced-ask,
  IsBalanced-try_catch, IsBalanced-pure,
}
use pinpoint_cpp_examples.Trace.Meets.{
  Meets, Meets-bind, Meets-if, Meets-acquire, Meets-release, Meets-pure, IsBalanced-after,
}
use pinpoint_cpp_examples.Trace.Attempts.{Meets-try_ask, Parts}
use pinpoint_cpp_examples.Http.{Request, Response}
use pinpoint_cpp_examples.Mysql.Session.{
  DatabaseConfig, Mysqlx, Database, make_session, opened, take_session, connect, connection_string,
}
use pinpoint_cpp_examples.Mysql.Queries.{
  run_statement, trace_sql_execution, init_sql_span_event, execute_query,
}
use pinpoint_cpp_examples.Mysql.Demo.{
  Query, select_query, dml, Step, Document, attempt, after_step, run_query, run_queries, run_steps,
  clock, run_demo_handler,
}
use pinpoint_cpp_examples.Mysql.Handlers.{
  answer_demo, try_connect, handle_db_demo, handle_db_status,
}

-- The statement of an SQL annotation.
abbrev pub sql_text : EventOp → Option Text
sql_text (set_sql_query sql params) = some sql
sql_text _ = none

abbrev pub HasSession : {E : Type 0} → Database E → Type 0
HasSession db = db.has_session ≡ true

-- What the attempt to connect leaves.
abbrev pub Connected : {E : Type 0} → Bool → Database E → Type 0
Connected true db = HasSession db
Connected false db = Unit {0}

module _ (driver : Mysqlx) (config : DatabaseConfig) {s d : ℕ} where
  run_statement-IsBalanced :
      (sql : Text) (params : List Text)
      → IsBalanced HasSession s d (run_statement driver config sql params)
  unfolding run_statement
  run_statement-IsBalanced sql params =
      IsBalanced-try_catch _ _
        (IsBalanced-bind _ _ (IsBalanced-need _ (λ db h. h))
          λ _. IsBalanced-bind _ _ (IsBalanced-ask _ (λ db h. h)) λ _. IsBalanced-pure _)
        (λ x. IsBalanced-pure _)

  trace_sql_execution-IsBalanced :
      (sql : Text) (params : List Text) (success : Bool) (error : Text)
      → IsBalanced HasSession s
          (suc d)
          (trace_sql_execution driver config d sql params success error)
  unfolding trace_sql_execution
  trace_sql_execution-IsBalanced sql params success error = search balanced depth 20

  init_sql_span_event-IsBalanced :
      IsBalanced HasSession s (suc d) (init_sql_span_event driver config d)
  unfolding init_sql_span_event
  init_sql_span_event-IsBalanced = search balanced depth 20

  clock-IsBalanced : IsBalanced HasSession s d (clock driver config)
  unfolding clock
  clock-IsBalanced = IsBalanced-ask _ (λ db h. h)

  any_clock-IsBalanced : IsBalanced Anything s d (clock driver config)
  unfolding clock
  any_clock-IsBalanced = IsBalanced-ask _ (λ db h. tt)

module _ (driver : Mysqlx) (config : DatabaseConfig) {s d : ℕ} where
  execute_query-IsBalanced :
      (name sql : Text) (params : List Text)
      → IsBalanced HasSession s d (execute_query driver config name sql params)
  unfolding execute_query
  execute_query-IsBalanced name sql params =
      search
        (
          balanced, init_sql_span_event-IsBalanced, run_statement-IsBalanced,
          trace_sql_execution-IsBalanced,
        )
        depth 20

  run_queries-IsBalanced :
      (qs : List Query) → IsBalanced HasSession s d (run_queries driver config qs)
  unfolding run_queries run_query
  run_queries-IsBalanced [] = search balanced
  run_queries-IsBalanced (select_query sql params ∷ qs) =
      IsBalanced-bind _ _ (execute_query-IsBalanced _ sql params) (λ _. run_queries-IsBalanced qs)
  run_queries-IsBalanced (dml type sql params ∷ qs) =
      IsBalanced-bind _ _ (execute_query-IsBalanced _ sql params) (λ _. run_queries-IsBalanced qs)

module _ (driver : Mysqlx) (config : DatabaseConfig) {s d : ℕ} where
  attempt-IsBalanced : (step : Step) → IsBalanced HasSession s d (attempt driver config step)
  unfolding attempt
  attempt-IsBalanced step =
      search (balanced, run_queries-IsBalanced driver config step.queries) depth 12

  after_step-IsBalanced :
      (rest : Program (Database driver.Env) Document) (doc : Document) (caught : Option Exception)
      → IsBalanced HasSession s d rest
      → IsBalanced HasSession s d (after_step driver config rest doc caught)
  unfolding after_step
  after_step-IsBalanced rest doc none h = h
  after_step-IsBalanced rest doc (some x) h = IsBalanced-pure _

  run_steps-IsBalanced :
      (steps : List Step) (doc : Document)
      → IsBalanced HasSession s d (run_steps driver config steps doc)
  unfolding run_steps
  run_steps-IsBalanced [] doc = search balanced
  run_steps-IsBalanced (step ∷ steps) doc =
      IsBalanced-bind _ _ (attempt-IsBalanced step)
        (λ caught. after_step-IsBalanced _ doc caught (run_steps-IsBalanced steps _))

module _ (driver : Mysqlx) (config : DatabaseConfig) {s d : ℕ} where
  run_demo_handler-IsBalanced : IsBalanced HasSession s d (run_demo_handler driver config)
  unfolding run_demo_handler
  run_demo_handler-IsBalanced =
      search (balanced, run_steps-IsBalanced driver config, clock-IsBalanced driver config) depth 20

  answer_demo-IsBalanced :
      (has_demo b : Bool) → IsBalanced (Connected b) s d (answer_demo driver config has_demo b)
  unfolding answer_demo
  answer_demo-IsBalanced has_demo true =
      IsBalanced-bind _ _ run_demo_handler-IsBalanced (λ t. IsBalanced-pure _)
  answer_demo-IsBalanced has_demo false = search balanced

  connect-IsBalanced : IsBalanced Anything s d (connect driver config)
  unfolding connect take_session
  connect-IsBalanced = search balanced depth 12

  try_connect-IsBalanced :
      (has_demo : Bool) → IsBalanced Anything s d (try_connect driver config has_demo)
  unfolding try_connect
  try_connect-IsBalanced has_demo = search (balanced, connect-IsBalanced) depth 12

module _ (driver : Mysqlx) (config : DatabaseConfig) where
  take_session-Meets :
      {Q : Bool → Database driver.Env → Type 0} (had : Bool)
      → Meets sql_text (Q true) (take_session driver config had) [] Q
  unfolding take_session
  take_session-Meets {Q} had = Meets-bind (Meets-acquire _) λ _.
      Meets-bind (Meets-if had (Meets-release _) (Meets-pure tt {Q = λ u. Q true} (λ db h. h)))
        λ _. Meets-pure true (λ db h. h)

  -- What `connect` leaves follows from what the server answers.
  pub connect-Meets :
      {I : Database driver.Env → Type 0} (Q : Bool → Database driver.Env → Type 0)
      → ((db : Database driver.Env)
          → I db
          → let (answer, env) = driver.open_session (connection_string config) db.env in
            let (a, after) = opened driver config answer env db in
            Parts (λ had. Q true) Q (λ x. false) a after)
      → Meets sql_text I (connect driver config) [] Q
  unfolding connect make_session
  connect-Meets Q k = Meets-try_ask _ (take_session driver config) (λ x. false) k take_session-Meets

  opened_lem :
      (a : Answer (Unit {0})) (env : driver.Env) (db : Database driver.Env)
      → let (b, after) = opened driver config a env db in
        Parts (λ had. Connected true) Connected (λ x. false) b after
  unfolding opened
  opened_lem (value u) env db = refl
  opened_lem (throws x) env db = tt

  pub try_connect-Meets :
      (has_demo : Bool) → Meets sql_text Anything (try_connect driver config has_demo) [] Connected
  unfolding try_connect
  try_connect-Meets true = connect-Meets Connected (λ db h. opened_lem _ _ db)
  try_connect-Meets false = Meets-pure false (λ db h. tt)

module _ (driver : Mysqlx) (config : DatabaseConfig) (has_demo : Bool) {s d : ℕ} where
  body-IsBalanced :
      IsBalanced Anything s d
        (try_connect driver config has_demo >>= answer_demo driver config has_demo)
  body-IsBalanced =
      IsBalanced-after (try_connect-IsBalanced driver config has_demo)
        (try_connect-Meets driver config has_demo) (λ b db h. tt)
        (answer_demo-IsBalanced driver config has_demo)

module _ (driver : Mysqlx) (config : DatabaseConfig) (has_demo : Bool) {s d : ℕ} (req : Request)
    (res : Response) where
  -- Neither MySQL handler leaves an event open or touches the thread's span, whatever the database and the
  -- clock answer and whatever throws; and none calls through a null session.
  pub handle_db_demo-IsBalanced :
      IsBalanced Anything s d (handle_db_demo driver config has_demo req res)
  unfolding handle_db_demo
  handle_db_demo-IsBalanced = search (balanced, body-IsBalanced driver config has_demo) depth 20

  pub handle_db_status-IsBalanced :
      IsBalanced Anything s d (handle_db_status driver config has_demo req res)
  unfolding handle_db_status
  handle_db_status-IsBalanced = search (balanced, any_clock-IsBalanced driver config) depth 20
