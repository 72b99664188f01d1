-- ===== src/Redis/Command.antt =====
-- `execute_command`: one Redis command under a span event of its own. hiredis is an interface here.
use pinpoint_cpp_examples.Common.{
  ℕ, ◌≡◌, refl, Bool, true, false, Option, none, some, List, [], ◌∷◌, ◌++◌, Text, lit, take, ◌==◌,
}
use pinpoint_cpp_examples.Common.Int.{ℤ}
use pinpoint_cpp_examples.Trace.{
  set_end_point, set_destination, set_annotation, set_error, api, redis, redis_reply, on_event,
  acquire, release,
}
use pinpoint_cpp_examples.Trace.Program.{Program, value, ask, scoped, emit, pure, ◌>>=◌, ◌>>◌}

-- The reply types that the code tells apart.
pub data Reply : Type 0 where
  error_reply : Text → Reply
  string_reply : Text → Reply
  integer_reply : ℕ → Reply
  status_reply : Text → Reply
  other_reply : ℕ → Reply

pub data Connection : Type 0 where
  no_context : Connection
  failed : Text → Connection
  connected : Connection

-- hiredis: `redisConnectWithTimeout`, `redisvCommand` (`none` is a null reply), `c->errstr`.
pub record Hiredis : Type 1 where
  pub Env : Type 0
  pub connect : Text → ℤ → Env → Connection × Env
  pub command : Text → List Text → Env → Option Reply × Env
  pub errstr : Env → Text × Env

pub record Config : Type 0 where
  pub host : Text
  pub port : ℤ
  pub endpoint : Text

head_or_nil : List Text → Text
head_or_nil [] = []
head_or_nil (a ∷ args) = a

rest : List Text → List Text
rest [] = []
rest (a ∷ args) = args

-- `printf` with `%s` as its only directive; the Boolean says that a `%` has just been read.
unfoldable pub expand : Bool → Text → List Text → Text
unfolding head_or_nil rest
expand percent [] args = []
expand false (c ∷ format) args = elim (c == b'%') [
  | true ↦ expand true format args
  | false ↦ c ∷ expand false format args
]
expand true (c ∷ format) args = elim (c == b's') [
  | true ↦ head_or_nil args ++ expand false format (rest args)
  | false ↦ c ∷ expand false format args
]

-- `vsnprintf(command_buf, sizeof(command_buf), format, ap)`.
unfoldable pub command_buf : Text → List Text → Text
unfolding expand
command_buf format args = take 1023 (expand false format args)

module _ (api_of : Hiredis) (config : Config) where
  open api_of use {Env, command, errstr}

  -- From `redisReply *r` to the end of the function.
  unfoldable pub report_reply : ℕ → Option Reply → Program Env (Unit {0})
  report_reply e none = do
    message ← ask (λ env. (value (errstr env).0, (errstr env).1))
    emit (on_event e (set_error message))
  report_reply e (some (error_reply message)) = do
    emit (on_event e (set_error message))
    emit (release redis_reply)
  report_reply e (some _) = emit (release redis_reply)

  unfoldable pub acquired : Option Reply → Program Env (Unit {0})
  acquired none = pure tt
  acquired (some r) = emit (acquire redis_reply)

  unfoldable pub execute_command : Option ℕ → Text → List Text → Program Env (Unit {0})
  unfolding report_reply acquired
  execute_command span format args = scoped span (lit "redis_command") redis λ e. do
    emit (on_event e (set_end_point config.endpoint))
    emit (on_event e (set_destination (lit "redis-server")))
    emit (on_event e (set_annotation api (command_buf format args)))
    reply ← ask (λ env. (value (command format args env).0, (command format args env).1))
    acquired reply
    report_reply e reply

set_command :
    command_buf (lit "SET %s %s") (lit "foo" ∷ lit "hello world" ∷ []) ≡ lit "SET foo hello world"
unfolding command_buf lit
set_command = refl
