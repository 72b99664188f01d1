-- ===== src/Mysql/Session.antt =====
-- `DatabaseConfig` and the session of `DatabaseDemo`, which is acquired and released in the log. The X
-- DevAPI connector is an interface here.
use pinpoint_cpp_examples.Common.{
  ℕ, Bool, true, false, Option, none, some, List, [], ◌∷◌, Text, lit, flatten, if◌then◌else◌,
}
use pinpoint_cpp_examples.Trace.{mysql_session, acquire, release}
use pinpoint_cpp_examples.Trace.Program.{
  Program, Answer, value, throws, ask, emit, pure, try_catch, ◌>>=◌, ◌>>◌,
}

pub record DatabaseConfig : Type 0 where
  pub host : Text
  pub port : Text
  pub database : Text
  pub username : Text
  pub password : Text

-- `getenv(name) ? getenv(name) : fallback`.
or_default : Option Text → Text → Text
or_default none fallback = fallback
or_default (some text) fallback = text

-- The configuration that `main` builds from what `getenv` answers.
unfoldable pub read_config : (Text → Option Text) → DatabaseConfig
unfolding or_default
read_config getenv = record {
  host = or_default (getenv (lit "MYSQL_HOST")) (lit "localhost");
  port = or_default (getenv (lit "MYSQL_PORT")) (lit "33060");
  database = or_default (getenv (lit "MYSQL_DATABASE")) (lit "test");
  username = or_default (getenv (lit "MYSQL_USER")) (lit "root");
  password = or_default (getenv (lit "MYSQL_PASSWORD")) (lit "pinpoint123");
}

-- The string that `connect` opens a session with.
unfoldable pub connection_string : DatabaseConfig → Text
connection_string c = flatten (
    lit "mysqlx://"
    ∷ c.username
    ∷ lit ":"
    ∷ c.password
    ∷ lit "@"
    ∷ c.host
    ∷ lit ":"
    ∷ c.port
    ∷ lit "/"
    ∷ c.database
    ∷ [])

-- mysqlx: the constructor of `Session`, the body of a query (`sql`, `bind`, `execute` and the reading
-- of its result), `close`, which may throw as well, the destructor of `Session`; and the system's clock in seconds.
pub record Mysqlx : Type 1 where
  pub Env : Type 0
  pub open_session : Text → Env → Answer (Unit {0}) × Env
  pub execute : Text → List Text → Env → Answer (Unit {0}) × Env
  pub close : Env → Answer (Unit {0}) × Env
  pub destroy : Env → Env
  pub now : Env → ℕ × Env

-- `has_session` says that `session_` is not null.
pub record Database (E : Type 0) : Type 0 where
  pub has_session : Bool
  pub env : E

module _ (driver : Mysqlx) (config : DatabaseConfig) where
  open driver use {Env, open_session, close, destroy}

  -- What the assignment to `session_` does to the session that was there, if there was one.
  abbrev pub replaced : Bool → Env → Env
  replaced true env = destroy env
  replaced false env = env

  unfoldable pub opened : Answer (Unit {0}) → Env → Database Env → Answer Bool × Database Env
  opened (value u) env db =
      (value db.has_session, record { has_session = true; env = replaced db.has_session env })
  opened (throws x) env db = (throws x, record db { env = env })

  -- `session_ = std::make_unique<Session>(...)`: whether there was a session before. An exception leaves
  -- `session_` as it was.
  unfoldable pub make_session : Database Env → Answer Bool × Database Env
  unfolding opened
  make_session db =
      let (answer, env) = open_session (connection_string config) db.env in opened answer env db

  -- The new session is made before the old one is destroyed.
  unfoldable pub take_session : Bool → Program (Database Env) Bool
  take_session had = do
    emit (acquire mysql_session)
    if had then emit (release mysql_session) else pure tt
    pure true

  unfoldable pub connect : Program (Database Env) Bool
  unfolding take_session
  connect = try_catch (ask make_session >>= take_session) (λ x. pure false)

  -- When `close` throws, `session_` is not reset.
  unfoldable pub close_session : Bool → Program (Database Env) (Unit {0})
  close_session true = do
    ask λ db. ((close db.env).0, record db { env = (close db.env).1 })
    ask λ db. (value tt, record { has_session = false; env = destroy db.env })
    emit (release mysql_session)
  close_session false = pure tt

  unfoldable pub disconnect : Program (Database Env) (Unit {0})
  unfolding close_session
  disconnect = ask (λ db. (value db.has_session, db)) >>= close_session
