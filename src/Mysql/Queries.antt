-- ===== src/Mysql/Queries.antt =====
-- The traced queries of `DatabaseDemo`. The sleep after each query is left out.
use pinpoint_cpp_examples.Common.{
  ℕ, Bool, true, false, not, ◌&&◌, List, [], ◌∷◌, ◌++◌, Text, lit, is_empty, if◌then◌else◌,
}
use pinpoint_cpp_examples.Trace.{
  set_end_point, set_destination, set_sql_query, set_named_error, mysql_query, on_event,
}
use pinpoint_cpp_examples.Trace.Program.{
  Program, Exception, mysqlx_error, std_exception, ask, need, scoped, try_catch, emit, pure,
  get_span_context, ◌>>=◌, ◌>>◌,
}
use pinpoint_cpp_examples.Mysql.Session.{DatabaseConfig, Mysqlx, Database}

pub data QueryType : Type 0 where
  select : QueryType
  insert : QueryType
  update : QueryType
  delete : QueryType
  other : QueryType

unfoldable pub query_type_to_string : QueryType → Text
query_type_to_string select = lit "SELECT"
query_type_to_string insert = lit "INSERT"
query_type_to_string update = lit "UPDATE"
query_type_to_string delete = lit "DELETE"
query_type_to_string other = lit "OTHER"

-- `error` as the two catch clauses set it.
unfoldable pub error_text : Exception → Text
error_text (mysqlx_error message) = lit "MySQL X DevAPI Error: " ++ message
error_text (std_exception message) = lit "Exception: " ++ message

-- `formatParameters`, which only the console sees.
format_rest : List Text → Text
format_rest [] = []
format_rest (p ∷ params) = lit ", " ++ (p ++ format_rest params)

unfoldable pub format_parameters : List Text → Text
unfolding format_rest
format_parameters [] = []
format_parameters (p ∷ params) = p ++ format_rest params

module _ (driver : Mysqlx) (config : DatabaseConfig) where
  open driver use {Env, execute}

  unfoldable pub init_sql_span_event : ℕ → Program (Database Env) (Unit {0})
  init_sql_span_event e = do
    emit (on_event e (set_end_point (config.host ++ (lit ":" ++ config.port))))
    emit (on_event e (set_destination config.database))

  -- The agent's calls do not throw.
  unfoldable pub trace_sql_execution :
      ℕ → Text → List Text → Bool → Text → Program (Database Env) (Unit {0})
  trace_sql_execution e sql params success error = do
    emit (on_event e (set_sql_query sql params))
    if not success && not (is_empty error)
        then emit (on_event e (set_named_error (lit "DB_ERROR") error))
        else pure tt

  -- `success` and `error` after the `try` around a query on `session_`.
  unfoldable pub run_statement : Text → List Text → Program (Database Env) (Bool × Text)
  run_statement sql params =
      try_catch
        (need (λ db. db.has_session)
          >> (ask (λ db. let (a, env) = execute sql params db.env in (a, record db { env = env }))
              >> pure (true, [])))
        (λ x. pure (false, error_text x))

  -- What `executeSelectQuery` and `executeDMLQuery` have in common.
  unfoldable pub execute_query : Text → Text → List Text → Program (Database Env) (Unit {0})
  unfolding init_sql_span_event trace_sql_execution run_statement
  execute_query name sql params = do
    span ← get_span_context
    scoped span name mysql_query λ e. do
      init_sql_span_event e
      result ← run_statement sql params
      trace_sql_execution e sql params result.0 result.1

  abbrev pub execute_select_query : Text → List Text → Program (Database Env) (Unit {0})
  execute_select_query sql params = execute_query (lit "SQL_SELECT") sql params

  abbrev pub execute_dml_query : QueryType → Text → List Text → Program (Database Env) (Unit {0})
  execute_dml_query type sql params =
      execute_query (lit "SQL_" ++ query_type_to_string type) sql params
