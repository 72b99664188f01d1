-- ===== src/Mongo/Demo.antt =====
-- `trace_mongo_op`, `run_mongo_demo` and the HTTP handler. mongocxx is an interface here.
use pinpoint_cpp_examples.Common.{ℕ, Bool, true, false, Option, [], ◌∷◌, ◌++◌, Text, lit, flatten}
use pinpoint_cpp_examples.Trace.{
  set_end_point, set_destination, set_sql_query, set_error, default_type, mongodb_query, on_event,
}
use pinpoint_cpp_examples.Trace.Program.{
  Program, Answer, what, ask, scoped, try_catch, emit, pure, get_span_context, ◌>>=◌, ◌>>◌,
}
use pinpoint_cpp_examples.Http
use pinpoint_cpp_examples.Http.{Request, Response, Handler, set_content}

-- mongocxx: the construction of `uri` and `client`, and the work of the four lambdas. Each may throw.
pub record Mongocxx : Type 1 where
  pub Env : Type 0
  pub connect : Text → Env → Answer (Unit {0}) × Env
  pub insert_one : Env → Answer (Unit {0}) × Env
  pub find : Env → Answer (Unit {0}) × Env
  pub update_one : Env → Answer (Unit {0}) × Env
  pub delete_one : Env → Answer (Unit {0}) × Env

unfoldable pub trace_mongo_op :
    {W : Type 0} → Option ℕ → Text → Text → Text → Program W (Unit {0}) → Program W (Unit {0})
trace_mongo_op span operation_name collection_name query_desc func =
    scoped span operation_name mongodb_query λ e. do
      emit (on_event e (set_end_point (lit "localhost:27017")))
      emit (on_event e (set_destination (lit "mongodb-demo")))
      emit (
          on_event e (
            set_sql_query
              (lit "Collection: " ++ (collection_name ++ (lit ", Query: " ++ query_desc))) []))
      try_catch func (λ x. emit (on_event e (set_error (what x))))

unfoldable pub success_body : Text → Text
success_body uri = flatten (
    lit "{\n"
    ∷ lit "  \"success\": true,\n"
    ∷ lit "  \"uri\": \""
    ∷ uri
    ∷ lit "\",\n"
    ∷ lit "  \"operations\": [\"Insert\", \"Find\", \"Update\", \"Delete\"]\n"
    ∷ lit "}"
    ∷ [])

unfoldable pub failure_body : Text → Text
failure_body error = flatten (
    lit "{\n"
    ∷ lit "  \"success\": false,\n"
    ∷ lit "  \"error\": \""
    ∷ error
    ∷ lit "\"\n"
    ∷ lit "}"
    ∷ [])

module _ (driver : Mongocxx) (mongo_uri : Text) where
  open driver use {Env, connect, insert_one, find, update_one, delete_one}

  unfoldable pub run_operations : Option ℕ → Program Env (Unit {0})
  run_operations span = do
    trace_mongo_op span (lit "Insert") (lit "testcollection")
        (lit "Insert {name: 'MongoDB', type: 'database'}") (ask insert_one)
    trace_mongo_op span (lit "Find") (lit "testcollection") (lit "Find {name: 'MongoDB'}")
        (ask find)
    trace_mongo_op span (lit "Update") (lit "testcollection")
        (lit "Update {name: 'MongoDB'} set {i: 110}") (ask update_one)
    trace_mongo_op span (lit "Delete") (lit "testcollection") (lit "Delete {name: 'MongoDB'}")
        (ask delete_one)

  -- The result and the out parameter `error`.
  unfoldable pub run_mongo_demo : Option ℕ → Program Env (Bool × Text)
  unfolding run_operations
  run_mongo_demo span =
      try_catch (do ask (connect mongo_uri); run_operations span; pure (true, []))
        (λ x. pure (false, what x))

  unfoldable pub report : ℕ → Response → Bool × Text → Program Env Response
  unfolding success_body failure_body
  report e res (true, error) =
      pure (
        set_content (success_body mongo_uri) (lit "application/json") (record res { status = 200 }))
  report e res (false, error) = do
    emit (on_event e (set_error error))
    pure (set_content (failure_body error) (lit "application/json") (record res { status = 503 }))

  unfoldable pub handle_run_demo : Handler Env
  unfolding run_mongo_demo report
  handle_run_demo req res = do
    span ← get_span_context
    scoped span (lit "handle_run_demo") default_type
        λ e. do result ← run_mongo_demo span; report e res result

  -- `wrap_handler(handle_run_demo)`, with this example's `trace_request` and `trace_response`.
  unfoldable pub serve : ℕ → Handler Env
  serve span = Http.wrap_handler (lit "MongoDBDemo") span handle_run_demo
