-- ===== src/Mysql/Server/Owned.antt =====
-- Who owns the sessions that the threads of the MySQL example make, until the program ends.
use pinpoint_cpp_examples.Common.{◌≡◌, Bool, true, false, Option}
use pinpoint_cpp_examples.Trace.Program.{Exception, throws}
use pinpoint_cpp_examples.Http.{Request, Response}
use pinpoint_cpp_examples.Mysql.Session.{DatabaseConfig, Mysqlx}
use pinpoint_cpp_examples.Mysql.Server.{Endpoint, Exit, exited, terminated}

module _ (driver : Mysqlx) (config : DatabaseConfig) (route : Request → Option Endpoint)
    (blank : Response) where
  -- What is left of the session: none, unless `close` throws in the destructor, which ends the program.
  abbrev pub session_left : Exit → Bool
  session_left exited = false
  session_left terminated = true

  abbrev pub MayEnd : Exit → Type 0
  MayEnd exited = Unit {0}
  MayEnd terminated = (env : driver.Env) × ((x : Exception) × ((driver.close env).0 ≡ throws x))
