-- ===== src/Redis/Owned.antt =====
-- Who owns hiredis' context and its replies.
use pinpoint_cpp_examples.Common.{ℕ, zero, suc, Bool, true, false, Option, none, some, Text, List}
use pinpoint_cpp_examples.Trace.{Resource, redis_reply}
use pinpoint_cpp_examples.Trace.Resources.{
  Owes, one_more, Owes-pure, Owes-ask, Owes-scoped, Owes-on_event, Owes-get_span_context,
  Owes-acquire, Owes-release, Owes-bind,
}
use pinpoint_cpp_examples.Http.{Request, Response}
use pinpoint_cpp_examples.Redis.Command.{
  Hiredis, Config, Reply, error_reply, Connection, no_context, failed, connected, execute_command,
  report_reply, acquired,
}
use pinpoint_cpp_examples.Redis.Demo.{
  push_loop, run_commands, after_connect, run_redis_demo, report, handle_run_demo,
}

-- The count of `r` while this reply is held.
abbrev holding : Resource → Option Reply → ℕ → ℕ
holding r none a = a
holding r (some reply) a = one_more redis_reply r a

module _ (api_of : Hiredis) (config : Config) {r : Resource} where
  acquired-Owes :
      (reply : Option Reply) {a : ℕ} → Owes r a (holding r reply a) (acquired api_of config reply)
  unfolding acquired
  acquired-Owes none = Owes-pure tt
  acquired-Owes (some reply) = Owes-acquire _

  report_reply-Owes :
      (e : ℕ) (reply : Option Reply) {a : ℕ}
      → Owes r (holding r reply a) a (report_reply api_of config e reply)
  unfolding report_reply
  report_reply-Owes e none = Owes-bind (Owes-ask _ (λ w. tt)) λ m. Owes-on_event e _
  report_reply-Owes e (some (error_reply m)) = Owes-bind (Owes-on_event e _) λ _. Owes-release _
  report_reply-Owes e (some _) = Owes-release _

  command-Owes :
      (span : Option ℕ) (format : Text) (args : List Text) {a : ℕ}
      → Owes r a a (execute_command api_of config span format args)
  unfolding execute_command
  command-Owes span format args = Owes-scoped span _ _ _ λ e. Owes-bind (Owes-on_event e _) λ _.
      Owes-bind (Owes-on_event e _) λ _. Owes-bind (Owes-on_event e _) λ _.
        Owes-bind (Owes-ask _ (λ w. tt))
          λ reply. Owes-bind (acquired-Owes reply) λ _. report_reply-Owes e reply

  push_loop-Owes :
      (span : Option ℕ) (rounds j : ℕ) {a : ℕ} → Owes r a a (push_loop api_of config span rounds j)
  unfolding push_loop
  push_loop-Owes span zero j = Owes-pure tt
  push_loop-Owes span (suc rounds) j =
      Owes-bind (command-Owes span _ _) λ _. push_loop-Owes span rounds (suc j)

  run_commands-Owes : (span : Option ℕ) {a : ℕ} → Owes r a a (run_commands api_of config span)
  unfolding run_commands
  run_commands-Owes span = Owes-bind (command-Owes span _ _) λ _.
      Owes-bind (command-Owes span _ _) λ _. Owes-bind (command-Owes span _ _) λ _.
        Owes-bind (command-Owes span _ _) λ _. Owes-bind (command-Owes span _ _) λ _.
          Owes-bind (command-Owes span _ _)
            λ _. Owes-bind (push_loop-Owes span 5 0) λ _. command-Owes span _ _

  after_connect-Owes :
      (span : Option ℕ) (c : Connection) {a : ℕ} → Owes r a a (after_connect api_of config span c)
  unfolding after_connect
  after_connect-Owes span no_context = Owes-pure _
  after_connect-Owes span (failed m) =
      Owes-bind (Owes-acquire _) λ _. Owes-bind (Owes-release _) λ _. Owes-pure _
  after_connect-Owes span connected =
      Owes-bind (Owes-acquire _)
        λ _. Owes-bind (run_commands-Owes span) λ _. Owes-bind (Owes-release _) λ _. Owes-pure _

  report-Owes :
      (e : ℕ) (res : Response) (x : Bool × Text) {a : ℕ} → Owes r a a (report api_of config e res x)
  unfolding report
  report-Owes e res (true, m) = Owes-pure _
  report-Owes e res (false, m) = Owes-bind (Owes-on_event e _) λ _. Owes-pure _

  -- A Redis request frees what hiredis hands out: the context, also one that carries an error, and each
  -- reply are freed exactly once, whatever the server answers.
  pub handle_run_demo-Owes :
      (req : Request) (res : Response) → Owes r 0 0 (handle_run_demo api_of config req res)
  unfolding handle_run_demo run_redis_demo
  handle_run_demo-Owes req res = Owes-bind Owes-get_span_context λ span. Owes-scoped span _ _ _ λ e.
      Owes-bind (Owes-bind (Owes-ask _ (λ w. tt)) (λ c. after_connect-Owes span c))
        λ x. report-Owes e res x
