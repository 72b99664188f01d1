-- ===== src/Mysql/Server.antt =====
-- The HTTP server of the MySQL example: what `main` registers, a thread that serves requests, and the
-- end of `main`, which destroys the `DatabaseDemo`.
pub mod Served
pub mod Owned
use pinpoint_cpp_examples.Common.{ℕ, true, Option, none, some, List, Text, lit}
use pinpoint_cpp_examples.Trace.Program.{Program, pure, try_catch, ◌>>=◌, ◌>>◌}
use pinpoint_cpp_examples.Http.{Request, Response, Handler, set_header}
use pinpoint_cpp_examples.Http.Server.{serve_all}
use pinpoint_cpp_examples.Mysql.Session.{DatabaseConfig, Mysqlx, Database, disconnect}
use pinpoint_cpp_examples.Mysql.Handlers.{serve_demo, serve_status}

-- `httplib::Server::HandlerResponse`.
pub data HandlerResponse : Type 0 where
  handled : HandlerResponse
  unhandled : HandlerResponse

-- The pre-routing handler.
unfoldable pub allow_cors : Request → Response → HandlerResponse × Response
allow_cors req res = (
  unhandled,
  set_header (lit "Access-Control-Allow-Headers") (lit "Content-Type, Authorization") (
      set_header (lit "Access-Control-Allow-Methods") (lit "GET, POST, OPTIONS")
        (set_header (lit "Access-Control-Allow-Origin") (lit "*") res)),
)

-- The handler of OPTIONS requests.
unfoldable pub answer_options : Request → Response → Response
answer_options req res = res

-- What is registered: `Get("/db-demo")`, `Get("/status")` and `Options(".*")`.
pub data Endpoint : Type 0 where
  db_demo : Endpoint
  status : Endpoint
  any_options : Endpoint

-- How the program ends: it returns from `main`, or `std::terminate` ends it.
pub data Exit : Type 0 where
  exited : Exit
  terminated : Exit

-- cpp-httplib finds the endpoint of a request, with `route`, and makes the response `blank`.
module _ (driver : Mysqlx) (config : DatabaseConfig) (route : Request → Option Endpoint)
    (blank : Response) where
  open driver use {Env}

  -- `g_demo` is set before the server starts.
  unfoldable pub answer : Option Endpoint → ℕ → Handler (Database Env)
  unfolding answer_options
  answer (some db_demo) s req res = serve_demo driver config true s req res
  answer (some status) s req res = serve_status driver config true s req res
  answer (some any_options) s req res = pure (answer_options req res)
  answer none s req res = pure res

  unfoldable pub after_routing :
      HandlerResponse → ℕ → Request → Response → Program (Database Env) Response
  unfolding answer
  after_routing handled s req res = pure res
  after_routing unhandled s req res = answer (route req) s req res

  unfoldable pub serve : ℕ → Request → Program (Database Env) Response
  unfolding allow_cors after_routing
  serve s req = let (h, res) = allow_cors req blank in after_routing h s req res

  -- `~DatabaseDemo`. A destructor is `noexcept`: an exception that would leave it terminates the program.
  unfoldable pub destroy_demo : Program (Database Env) Exit
  destroy_demo = try_catch (disconnect driver config >> pure exited) (λ x. pure terminated)

  -- `listen`, and the destructor of `demo` at the end of `main`.
  unfoldable pub run_server : List Request → Program (Database Env) (List Response × Exit)
  unfolding serve destroy_demo
  run_server reqs = do
    responses ← serve_all serve reqs 0
    exit ← destroy_demo
    pure (responses, exit)
