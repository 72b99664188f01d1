-- ===== src/Redis/Served.antt =====
-- A whole Redis request, through `wrap_handler`.
use pinpoint_cpp_examples.Common.{ℕ, ◌≡◌, some}
use pinpoint_cpp_examples.Trace.Program.{World, returned}
use pinpoint_cpp_examples.Trace.Balanced.{Anything}
use pinpoint_cpp_examples.Trace.Shows.{api_text, seen}
use pinpoint_cpp_examples.Http.{Request, Response}
use pinpoint_cpp_examples.Http.Wrapped.{Ended, request-Ended}
use pinpoint_cpp_examples.Redis.Command.{Hiredis, Config}
use pinpoint_cpp_examples.Redis.Demo.{handle_run_demo, serve}
use pinpoint_cpp_examples.Redis.Traced.{handle_run_demo-IsBalanced}
use pinpoint_cpp_examples.Redis.Commands.{commands_of, response_of, handle_run_demo-out}

-- Every Redis request, whatever hiredis answers, ends its span with no event open and clears the
-- thread's span; its response is 200 on a connection and 503 without one, and its span events record
-- the twelve commands of the session or none accordingly.
pub redis_request-Ended :
    (api_of : Hiredis) (config : Config) (s : ℕ) (req : Request) (res : Response)
    (w : World api_of.Env)
    → let c = (api_of.connect config.host config.port w.env).0 in
      let r = serve api_of config s req res 0 w in
      Ended r
      × (r.out ≡ returned (response_of config res c))
      × (seen api_text r.log ≡ commands_of c)
unfolding serve
redis_request-Ended api_of config s req res w =
    let c = (api_of.connect config.host config.port w.env).0 in
    request-Ended Anything _ s (handle_run_demo api_of config) req res w api_text
      (response_of config res c) (handle_run_demo-IsBalanced api_of config s req res) tt
      (handle_run_demo-out api_of config req res 0 (record w { current = some s }))
