-- ===== src/Redis/Demo.antt =====
-- `run_redis_demo` and the HTTP handlers.
use pinpoint_cpp_examples.Common.{
  ℕ, zero, suc, Bool, true, false, Option, [], ◌∷◌, Text, lit, flatten,
}
use pinpoint_cpp_examples.Common.Decimal.{to_string}
use pinpoint_cpp_examples.Trace.{set_error, default_type, redis_context, on_event, acquire, release}
use pinpoint_cpp_examples.Trace.Program.{
  Program, value, ask, scoped, emit, pure, get_span_context, ◌>>=◌, ◌>>◌,
}
use pinpoint_cpp_examples.Http
use pinpoint_cpp_examples.Http.{Request, Response, Handler, set_content}
use pinpoint_cpp_examples.Redis.Command.{
  Hiredis, Connection, no_context, failed, connected, Config, execute_command,
}

unfoldable pub success_body : Text → Text
success_body endpoint = flatten (
    lit "{\n"
    ∷ lit "  \"success\": true,\n"
    ∷ lit "  \"redis\": \""
    ∷ endpoint
    ∷ lit "\",\n"
    ∷ lit "  \"commands\": [\"PING\", \"SET\", \"GET\", \"INCR\", \"DEL\", \"LPUSH\", \"LRANGE\"]\n"
    ∷ lit "}"
    ∷ [])

unfoldable pub failure_body : Text → Text
failure_body error = flatten (
    lit "{\n"
    ∷ lit "  \"success\": false,\n"
    ∷ lit "  \"error\": \""
    ∷ error
    ∷ lit "\"\n"
    ∷ lit "}"
    ∷ [])

module _ (api_of : Hiredis) (config : Config) where
  open api_of use {Env, connect}

  -- `for (int j = 0; j < 5; j++)`: the rounds that are left, and `j`.
  unfoldable pub push_loop : Option ℕ → ℕ → ℕ → Program Env (Unit {0})
  push_loop span zero j = pure tt
  push_loop span (suc rounds) j = do
    execute_command api_of config span (lit "LPUSH mylist element-%s") (to_string j ∷ [])
    push_loop span rounds (suc j)

  -- The commands on an established connection.
  unfoldable pub run_commands : Option ℕ → Program Env (Unit {0})
  unfolding push_loop
  run_commands span = do
    execute_command api_of config span (lit "PING") []
    execute_command api_of config span (lit "SET %s %s") (lit "foo" ∷ lit "hello world" ∷ [])
    execute_command api_of config span (lit "GET foo") []
    execute_command api_of config span (lit "INCR counter") []
    execute_command api_of config span (lit "INCR counter") []
    execute_command api_of config span (lit "DEL mylist") []
    push_loop span 5 0
    execute_command api_of config span (lit "LRANGE mylist 0 -1") []

  -- The result is `success` and the out parameter `error`.
  unfoldable pub after_connect : Option ℕ → Connection → Program Env (Bool × Text)
  unfolding run_commands
  after_connect span no_context = pure (false, lit "can't allocate redis context")
  after_connect span (failed message) = do
    emit (acquire redis_context)
    emit (release redis_context)
    pure (false, message)
  after_connect span connected = do
    emit (acquire redis_context)
    run_commands span
    emit (release redis_context)
    pure (true, [])

  unfoldable pub run_redis_demo : Option ℕ → Program Env (Bool × Text)
  unfolding after_connect
  run_redis_demo span = do
    connection ← ask (λ env.
        (value (connect config.host config.port env).0, (connect config.host config.port env).1))
    after_connect span connection

  unfoldable pub report : ℕ → Response → Bool × Text → Program Env Response
  unfolding success_body failure_body
  report e res (true, error) = pure (
      set_content (success_body config.endpoint) (lit "application/json")
        (record res { status = 200 }))
  report e res (false, error) = do
    emit (on_event e (set_error error))
    pure (set_content (failure_body error) (lit "application/json") (record res { status = 503 }))

  unfoldable pub handle_run_demo : Handler Env
  unfolding run_redis_demo report
  handle_run_demo req res = do
    span ← get_span_context
    scoped span (lit "handle_run_demo") default_type
        λ e. do result ← run_redis_demo span; report e res result

  -- `wrap_handler(handle_run_demo)`, with this example's `trace_request` and `trace_response`.
  unfoldable pub serve : ℕ → Handler Env
  serve span = Http.wrap_handler (lit "RedisDemo") span handle_run_demo
