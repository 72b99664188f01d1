-- ===== src/Mysql/Handlers.antt =====
-- `handle_db_demo`, `handle_db_status` and what `wrap_handler` makes of them.
use pinpoint_cpp_examples.Common.{
  ℕ, Bool, true, false, [], ◌∷◌, ◌++◌, Text, lit, flatten, if◌then◌else◌,
}
use pinpoint_cpp_examples.Common.Decimal.{to_string}
use pinpoint_cpp_examples.Trace.{set_error, default_type, on_event}
use pinpoint_cpp_examples.Trace.Program.{
  Program, what, scoped, try_catch, emit, pure, get_span_context, ◌>>=◌, ◌>>◌,
}
use pinpoint_cpp_examples.Http
use pinpoint_cpp_examples.Http.{Request, Response, Handler, set_content}
use pinpoint_cpp_examples.Mysql.Session.{DatabaseConfig, Mysqlx, Database, connect}
use pinpoint_cpp_examples.Mysql.Demo.{run_demo_handler, clock}

unfoldable pub success_body : Text → Text
success_body demo_result = flatten (
    lit "{\n"
    ∷ lit "  \"success\": true,\n"
    ∷ lit "  \"database\": \"tcp://localhost:33060/test\",\n"
    ∷ lit "  \"demo_result\": "
    ∷ demo_result
    ∷ lit "\n"
    ∷ lit "}"
    ∷ [])

unfoldable pub unavailable_body : Text
unavailable_body = flatten (
    lit "{\n"
    ∷ lit "  \"success\": false,\n"
    ∷ lit "  \"error\": \"Database connection failed\",\n"
    ∷ lit "  \"message\": \"Please ensure MySQL is running and accessible\",\n"
    ∷ lit "  \"instructions\": [\n"
    ∷ lit "    \"Install MySQL Server 8.0+ with X Protocol\",\n"
    ∷ lit "    \"Start MySQL service on localhost:3306\",\n"
    ∷ lit "    \"Create test database: CREATE DATABASE test;\",\n"
    ∷ lit "    \"Update connection settings if needed\"\n"
    ∷ lit "  ]\n"
    ∷ lit "}"
    ∷ [])

unfoldable pub failure_body : Text → Text
failure_body details = flatten (
    lit "{\n"
    ∷ lit "  \"success\": false,\n"
    ∷ lit "  \"error\": \"Demo execution failed\",\n"
    ∷ lit "  \"details\": \""
    ∷ details
    ∷ lit "\"\n"
    ∷ lit "}"
    ∷ [])

unfoldable pub status_body : ℕ → Text
status_body seconds = flatten (
    lit "{\n"
    ∷ lit "  \"service\": \"MySQL Database Demo with Pinpoint Tracing\",\n"
    ∷ lit "  \"version\": \"1.0.0\",\n"
    ∷ lit "  \"database\": {\n"
    ∷ lit "    \"host\": \"localhost\",\n"
    ∷ lit "    \"port\": \"3306\",\n"
    ∷ lit "    \"database\": \"test\",\n"
    ∷ lit "    \"protocol\": \"MySQL X DevAPI\"\n"
    ∷ lit "  },\n"
    ∷ lit "  \"endpoints\": {\n"
    ∷ lit "    \"/db-demo\": \"Run complete database demo with tracing\",\n"
    ∷ lit "    \"/status\": \"Get service status and configuration\"\n"
    ∷ lit "  },\n"
    ∷ lit "  \"timestamp\": \""
    ∷ to_string seconds
    ∷ lit "\"\n"
    ∷ lit "}"
    ∷ [])

-- `has_demo` says that `g_demo` is set.
module _ (driver : Mysqlx) (config : DatabaseConfig) (has_demo : Bool) where
  open driver use {Env}

  -- The body of the `try`: the status and the JSON text.
  unfoldable pub answer_demo : Bool → Program (Database Env) (ℕ × Text)
  unfolding success_body unavailable_body
  answer_demo true = do
    demo_result ← run_demo_handler driver config
    pure (200, success_body demo_result)
  answer_demo false = pure (503, unavailable_body)

  unfoldable pub try_connect : Program (Database Env) Bool
  try_connect = if has_demo then connect driver config else pure false

  unfoldable pub handle_db_demo : Handler (Database Env)
  unfolding answer_demo try_connect failure_body
  handle_db_demo req res = do
    span ← get_span_context
    scoped span (lit "handle_db_demo") default_type λ e. do
      answer ← try_catch (try_connect >>= answer_demo) (λ x. do
        emit (on_event e (set_error (lit "Demo failed: " ++ what x)))
        pure (500, failure_body (what x)))
      pure (set_content answer.1 (lit "application/json") (record res { status = answer.0 }))

  unfoldable pub handle_db_status : Handler (Database Env)
  unfolding status_body
  handle_db_status req res = do
    span ← get_span_context
    scoped span (lit "handle_db_status") default_type λ e. do
      seconds ← clock driver config
      pure
          (record (set_content (status_body seconds) (lit "application/json") res) { status = 200 })

  unfoldable pub serve_demo : ℕ → Handler (Database Env)
  serve_demo span = Http.wrap_handler (lit "C++ DB Demo") span handle_db_demo

  unfoldable pub serve_status : ℕ → Handler (Database Env)
  serve_status span = Http.wrap_handler (lit "C++ DB Demo") span handle_db_status
