-- ===== src/Mongo/Served.antt =====
-- A whole MongoDB request, through `wrap_handler`.
use pinpoint_cpp_examples.Common.{ℕ, ◌≡◌, some, Text}
use pinpoint_cpp_examples.Trace.Program.{World, returned}
use pinpoint_cpp_examples.Trace.Balanced.{Anything}
use pinpoint_cpp_examples.Trace.Shows.{seen}
use pinpoint_cpp_examples.Http.{Request, Response}
use pinpoint_cpp_examples.Http.Wrapped.{Ended, request-Ended}
use pinpoint_cpp_examples.Mongo.Demo.{Mongocxx}
use pinpoint_cpp_examples.Mongo.Demo.{handle_run_demo, serve}
use pinpoint_cpp_examples.Mongo.Traced.{
  query_text, queries_of, response_of, handle_run_demo-out, handle_run_demo-IsBalanced,
}

-- Every MongoDB request, whatever the driver does, ends its span with no event open and clears the
-- thread's span; its response is 200 when the client could be constructed and 503 when not, and its
-- span events record the four queries or none accordingly.
pub mongo_request-Ended :
    (driver : Mongocxx) (uri : Text) (s : ℕ) (req : Request) (res : Response) (w : World driver.Env)
    → let c = (driver.connect uri w.env).0 in
      let r = serve driver uri s req res 0 w in
      Ended r × (r.out ≡ returned (response_of uri res c)) × (seen query_text r.log ≡ queries_of c)
unfolding serve
mongo_request-Ended driver uri s req res w =
    let c = (driver.connect uri w.env).0 in
    request-Ended Anything _ s (handle_run_demo driver uri) req res w query_text
      (response_of uri res c) (handle_run_demo-IsBalanced driver uri s req res) tt
      (handle_run_demo-out driver uri req res 0 (record w { current = some s }))
