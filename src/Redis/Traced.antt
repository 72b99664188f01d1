-- ===== src/Redis/Traced.antt =====
-- The span events of a Redis request, and what it reports.
use pinpoint_cpp_examples.Common.{ℕ, zero, suc, Bool, true, false, Option, none, some, Text, List}
use pinpoint_cpp_examples.Trace.Balanced.{IsBalanced, Anything, balanced, IsBalanced-bind}
use pinpoint_cpp_examples.Http.{Request, Response}
use pinpoint_cpp_examples.Redis.Command.{
  Hiredis, Config, Reply, error_reply, Connection, no_context, failed, connected, execute_command,
  report_reply, acquired,
}
use pinpoint_cpp_examples.Redis.Demo.{
  push_loop, run_commands, after_connect, run_redis_demo, report, handle_run_demo,
}

module _ (api_of : Hiredis) (config : Config) {s d : ℕ} where
  report_reply-IsBalanced :
      (r : Option Reply) → IsBalanced Anything s (suc d) (report_reply api_of config d r)
  unfolding report_reply
  report_reply-IsBalanced none = search balanced depth 12
  report_reply-IsBalanced (some (error_reply m)) = search balanced depth 12
  report_reply-IsBalanced (some _) = search balanced depth 12

  acquired-IsBalanced : (r : Option Reply) → IsBalanced Anything s d (acquired api_of config r)
  unfolding acquired
  acquired-IsBalanced none = search balanced
  acquired-IsBalanced (some r) = search balanced

module _ (api_of : Hiredis) (config : Config) {s d : ℕ} where
  execute_command-IsBalanced :
      (format : Text) (args : List Text)
      → IsBalanced Anything s d (execute_command api_of config (some s) format args)
  unfolding execute_command
  execute_command-IsBalanced format args =
      search (balanced, report_reply-IsBalanced, acquired-IsBalanced) depth 20

module _ (api_of : Hiredis) (config : Config) {s d : ℕ} where
  push_loop-IsBalanced :
      (rounds j : ℕ) → IsBalanced Anything s d (push_loop api_of config (some s) rounds j)
  unfolding push_loop
  push_loop-IsBalanced zero j = search balanced
  push_loop-IsBalanced (suc rounds) j =
      IsBalanced-bind _ _ (execute_command-IsBalanced api_of config _ _)
        (λ _. push_loop-IsBalanced rounds (suc j))

  run_commands-IsBalanced : IsBalanced Anything s d (run_commands api_of config (some s))
  unfolding run_commands
  run_commands-IsBalanced =
      search (balanced, execute_command-IsBalanced, push_loop-IsBalanced) depth 20

  after_connect-IsBalanced :
      (c : Connection) → IsBalanced Anything s d (after_connect api_of config (some s) c)
  unfolding after_connect
  after_connect-IsBalanced no_context = search balanced
  after_connect-IsBalanced (failed m) = search balanced depth 12
  after_connect-IsBalanced connected = search (balanced, run_commands-IsBalanced) depth 12

  report-IsBalanced :
      (res : Response) (r : Bool × Text)
      → IsBalanced Anything s (suc d) (report api_of config d res r)
  unfolding report
  report-IsBalanced res (true, e) = search balanced
  report-IsBalanced res (false, e) = search balanced depth 12

-- Whatever Redis answers and whether or not it can be reached, the handler of a Redis request run on a
-- thread whose span is `s` opens and closes its span events in nested order, talks only to open events,
-- and leaves the thread's span in place.
pub handle_run_demo-IsBalanced :
    (api_of : Hiredis) (config : Config) (s : ℕ) (req : Request) (res : Response)
    → IsBalanced Anything s 0 (handle_run_demo api_of config req res)
unfolding handle_run_demo run_redis_demo
handle_run_demo-IsBalanced api_of config s req res =
    search (balanced, after_connect-IsBalanced, report-IsBalanced) depth 20
