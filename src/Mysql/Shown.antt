-- ===== src/Mysql/Shown.antt =====
-- The statements that a MySQL request records, and the document that it answers with.
use pinpoint_cpp_examples.Common.{
  ℕ, ◌≡◌, refl, Bool, true, false, not, ◌&&◌, Option, none, some, List, [], ◌∷◌, ◌++◌, Text, lit,
  is_empty,
}
use pinpoint_cpp_examples.Trace.{set_named_error}
use pinpoint_cpp_examples.Trace.Program.{Answer, value, throws, Program, Exception, pure}
use pinpoint_cpp_examples.Trace.Meets.{
  Meets, Meets-pure, Meets-ask, Meets-bind, Meets-then, Meets-scoped, Meets-on_event,
  Meets-get_span_context, Meets-try, Meets-if,
}
use pinpoint_cpp_examples.Trace.Attempts.{Meets-attempt_set, Settles}
use pinpoint_cpp_examples.Mysql.Session.{DatabaseConfig, Mysqlx, Database}
use pinpoint_cpp_examples.Mysql.Queries.{
  run_statement, trace_sql_execution, init_sql_span_event, execute_query, error_text,
}
use pinpoint_cpp_examples.Mysql.Demo.{
  Query, select_query, dml, Step, Document, attempt, after_step, add_operation, script,
  opening_text, finish, run_query, run_queries, run_steps, clock, run_demo_handler,
}
use pinpoint_cpp_examples.Mysql.Traced.{sql_text, HasSession}

abbrev pub statement : Query → Text
statement (select_query sql params) = sql
statement (dml type sql params) = sql

abbrev pub statements : List Query → List Text
statements [] = []
statements (q ∷ qs) = statement q ∷ statements qs

abbrev pub all_statements : List Step → List Text
all_statements [] = []
all_statements (step ∷ steps) = statements step.queries ++ all_statements steps

-- The document when every operation is reported.
abbrev pub reported : List Step → Document → Document
reported [] doc = doc
reported (step ∷ steps) doc =
    reported steps (add_operation step.operation step.status step.details doc)

abbrev pub Keeping : {E A : Type 0} → A → Database E → Type 0
Keeping a db = HasSession db

module _ (driver : Mysqlx) (config : DatabaseConfig) where
  abbrev Shown : {A : Type 0} → Program (Database driver.Env) A → List Text → Type 0
  Shown m xs = Meets sql_text HasSession m xs Keeping

  settle_lem :
      (a : Answer (Unit {0})) (db : Database driver.Env)
      → HasSession db
      → Settles {A = Bool × Text} Keeping a (true, []) (λ x. (false, error_text x)) db
  settle_lem (value u) db h = h
  settle_lem (throws x) db h = h

  run_statement-Shown :
      (sql : Text) (params : List Text) → Shown (run_statement driver config sql params) []
  unfolding run_statement
  run_statement-Shown sql params =
      Meets-attempt_set _ _ _ _ (λ db h. h)
        λ db h.
          settle_lem (driver.execute sql params db.env).0
            (record db { env = (driver.execute sql params db.env).1 }) h

  trace_sql_execution-Shown :
      (e : ℕ) (sql : Text) (params : List Text) (success : Bool) (error : Text)
      → Shown (trace_sql_execution driver config e sql params success error) (sql ∷ [])
  unfolding trace_sql_execution
  trace_sql_execution-Shown e sql params success error = Meets-bind (Meets-on_event e _) λ u.
      Meets-if (not success && not (is_empty error))
        (Meets-on_event e (set_named_error (lit "DB_ERROR") error))
        (Meets-pure tt {Q = Keeping} (λ db h. h))

  init_sql_span_event-Shown : (e : ℕ) → Shown (init_sql_span_event driver config e) []
  unfolding init_sql_span_event
  init_sql_span_event-Shown e = Meets-bind (Meets-on_event e _) (λ u. Meets-on_event e _)

  execute_query-Shown :
      (name sql : Text) (params : List Text)
      → Shown (execute_query driver config name sql params) (sql ∷ [])
  unfolding execute_query
  execute_query-Shown name sql params = Meets-bind Meets-get_span_context λ span.
      Meets-scoped span name _ _ λ e. Meets-bind (init_sql_span_event-Shown e) λ u.
        Meets-bind (run_statement-Shown sql params)
          λ r. trace_sql_execution-Shown e sql params r.0 r.1

  run_queries-Shown : (qs : List Query) → Shown (run_queries driver config qs) (statements qs)
  unfolding run_queries run_query
  run_queries-Shown [] = Meets-pure tt (λ db h. h)
  run_queries-Shown (select_query sql params ∷ qs) =
      Meets-bind (execute_query-Shown _ sql params) (λ u. run_queries-Shown qs)
  run_queries-Shown (dml type sql params ∷ qs) =
      Meets-bind (execute_query-Shown _ sql params) (λ u. run_queries-Shown qs)

-- The document of a run in which every operation is reported, at whatever time.
abbrev pub Complete : Text → Type 0
Complete text =
    (seconds : ℕ) × (text
      ≡ finish (reported script (record { result = opening_text; first = true })) seconds)

-- No exception comes out of a step.
abbrev NoneCaught : {E : Type 0} → Option Exception → Database E → Type 0
NoneCaught none db = HasSession db
NoneCaught (some x) db = ⊥

module _ (driver : Mysqlx) (config : DatabaseConfig) where
  abbrev Reports : Document → Document → Database driver.Env → Type 0
  Reports expected doc db = HasSession db × (doc ≡ expected)

  attempt-Meets :
      (step : Step)
      → Meets sql_text HasSession (attempt driver config step) (statements step.queries) NoneCaught
  unfolding attempt
  attempt-Meets step =
      Meets-try (λ x. pure (some x))
        (Meets-then (run_queries-Shown driver config step.queries)
          (λ u. Meets-pure none (λ db h. h)))

  after_step-Meets :
      (rest : Program (Database driver.Env) Document) (doc : Document) (caught : Option Exception)
      {xs : List Text} {Q : Document → Database driver.Env → Type 0}
      → Meets sql_text HasSession rest xs Q
      → Meets sql_text (NoneCaught caught) (after_step driver config rest doc caught) xs Q
  unfolding after_step
  after_step-Meets rest doc none k = k
  after_step-Meets rest doc (some x) k = record { at = λ d w i. absurd i }

  run_steps-Meets :
      (steps : List Step) (doc : Document)
      → Meets sql_text HasSession
          (run_steps driver config steps doc)
          (all_statements steps)
          (Reports (reported steps doc))
  unfolding run_steps
  run_steps-Meets [] doc = Meets-pure doc (λ db h. (h, refl))
  run_steps-Meets (step ∷ steps) doc =
      Meets-bind (attempt-Meets step)
        (λ caught. after_step-Meets _ doc caught (run_steps-Meets steps _))

  pub run_demo_handler-Meets :
      Meets sql_text HasSession
        (run_demo_handler driver config)
        (all_statements script)
        (λ text db. Complete text)
  unfolding run_demo_handler clock
  run_demo_handler-Meets = Meets-bind Meets-get_span_context λ span. Meets-scoped span _ _ _ λ e.
      Meets-then (run_steps-Meets script _) λ doc.
        Meets-bind (Meets-ask _ {Q = λ n db. doc ≡ reported script _} (λ db h. h.1))
          λ seconds. Meets-pure _ (λ db h. (seconds, rw h refl))
