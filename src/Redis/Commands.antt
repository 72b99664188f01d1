-- ===== src/Redis/Commands.antt =====
-- The commands that a request records, in the order in which it sends them.
use pinpoint_cpp_examples.Common.{
  ℕ, zero, suc, ◌≡◌, refl, Bool, true, false, Option, none, some, List, [], ◌∷◌, ◌∙◌, append-nil,
  Text, lit,
}
use pinpoint_cpp_examples.Common.Decimal.{to_string}
use pinpoint_cpp_examples.Trace.Program.{World, returned, ◌>>=◌}
use pinpoint_cpp_examples.Trace.Shows.{
  api_text, Shows, Shows-pure, Shows-ask, Shows-scoped, Shows-on_event, Shows-acquire,
  Shows-release, Shows-bind, seen, Shows-returned, seen-scope,
}
use pinpoint_cpp_examples.Http.{Request, Response, set_content}
use pinpoint_cpp_examples.Redis.Command.{
  Hiredis, Config, Reply, error_reply, Connection, no_context, failed, connected, execute_command,
  report_reply, acquired, command_buf,
}
use pinpoint_cpp_examples.Redis.Demo.{
  push_loop, run_commands, after_connect, run_redis_demo, report, handle_run_demo, success_body,
  failure_body,
}

module _ (api_of : Hiredis) (config : Config) where
  report_reply-Shows :
      (e : ℕ) (r : Option Reply) → Shows api_text (report_reply api_of config e r) []
  unfolding report_reply
  report_reply-Shows e none = Shows-bind (Shows-ask _) (λ m. Shows-on_event e _)
  report_reply-Shows e (some (error_reply m)) =
      Shows-bind (Shows-on_event e _) (λ _. Shows-release _)
  report_reply-Shows e (some _) = Shows-release _

  acquired-Shows : (r : Option Reply) → Shows api_text (acquired api_of config r) []
  unfolding acquired
  acquired-Shows none = Shows-pure tt
  acquired-Shows (some r) = Shows-acquire _

  execute_command-Shows :
      (span : Option ℕ) (format : Text) (args : List Text)
      → Shows api_text
          (execute_command api_of config span format args)
          (command_buf format args ∷ [])
  unfolding execute_command
  execute_command-Shows span format args = Shows-scoped _ _ _ _ λ e.
      Shows-bind (Shows-on_event e _) λ _. Shows-bind (Shows-on_event e _) λ _.
        Shows-bind (Shows-on_event e _) λ _.
          Shows-bind (Shows-ask _) λ r. Shows-bind (acquired-Shows r) λ _. report_reply-Shows e r

  -- `LPUSH mylist element-j` for each `j` of the rounds that are left.
  abbrev pub pushes : ℕ → ℕ → List Text
  pushes zero j = []
  pushes (suc rounds) j =
      command_buf (lit "LPUSH mylist element-%s") (to_string j ∷ []) ∷ pushes rounds (suc j)

  push_loop-Shows :
      (span : Option ℕ) (rounds j : ℕ)
      → Shows api_text (push_loop api_of config span rounds j) (pushes rounds j)
  unfolding push_loop
  push_loop-Shows span zero j = Shows-pure tt
  push_loop-Shows span (suc rounds) j =
      Shows-bind (execute_command-Shows span _ _) (λ _. push_loop-Shows span rounds (suc j))

-- The session on a connection, as a client would type it.
abbrev pub session : List Text
session =
    lit "PING"
    ∷ lit "SET foo hello world"
    ∷ lit "GET foo"
    ∷ lit "INCR counter"
    ∷ lit "INCR counter"
    ∷ lit "DEL mylist"
    ∷ lit "LPUSH mylist element-0"
    ∷ lit "LPUSH mylist element-1"
    ∷ lit "LPUSH mylist element-2"
    ∷ lit "LPUSH mylist element-3"
    ∷ lit "LPUSH mylist element-4"
    ∷ lit "LRANGE mylist 0 -1"
    ∷ []

abbrev pub commands_of : Connection → List Text
commands_of connected = session
commands_of (failed m) = []
commands_of no_context = []

-- `success` and `error` after the attempt to connect.
abbrev pub result_of : Connection → Bool × Text
result_of no_context = (false, lit "can't allocate redis context")
result_of (failed message) = (false, message)
result_of connected = (true, [])

-- The response to a request that met this connection.
abbrev pub response_of : Config → Response → Connection → Response
response_of config res connected =
    set_content (success_body config.endpoint) (lit "application/json")
      (record res { status = 200 })
response_of config res (failed message) =
    set_content (failure_body message) (lit "application/json") (record res { status = 503 })
response_of config res no_context =
    set_content (failure_body (lit "can't allocate redis context")) (lit "application/json")
      (record res { status = 503 })

module _ (api_of : Hiredis) (config : Config) where
  run_commands-Shows : (span : Option ℕ) → Shows api_text (run_commands api_of config span) session
  unfolding run_commands command_buf lit to_string
  run_commands-Shows span = Shows-bind (execute_command-Shows api_of config span _ _) λ _.
      Shows-bind (execute_command-Shows api_of config span _ _) λ _.
        Shows-bind (execute_command-Shows api_of config span _ _) λ _.
          Shows-bind (execute_command-Shows api_of config span _ _) λ _.
            Shows-bind (execute_command-Shows api_of config span _ _) λ _.
              Shows-bind (execute_command-Shows api_of config span _ _) λ _.
                Shows-bind (push_loop-Shows api_of config span 5 0)
                  λ _. execute_command-Shows api_of config span _ _

  after_connect-Shows :
      (span : Option ℕ) (c : Connection)
      → Shows api_text (after_connect api_of config span c) (commands_of c)
  unfolding after_connect
  after_connect-Shows span no_context = Shows-pure _
  after_connect-Shows span (failed m) =
      Shows-bind (Shows-acquire _) λ _. Shows-bind (Shows-release _) λ _. Shows-pure _
  after_connect-Shows span connected =
      Shows-bind (Shows-acquire _) λ _.
        Shows-bind (run_commands-Shows span) λ _. Shows-bind (Shows-release _) λ _. Shows-pure _

  report-Shows :
      (e : ℕ) (res : Response) (r : Bool × Text) → Shows api_text (report api_of config e res r) []
  unfolding report
  report-Shows e res (true, error) = Shows-pure _
  report-Shows e res (false, error) = Shows-bind (Shows-on_event e _) λ _. Shows-pure _

  after_connect-out :
      (span : Option ℕ) (c : Connection) (d : ℕ) (w : World api_of.Env)
      → (after_connect api_of config span c d w).out ≡ returned (result_of c)
  unfolding after_connect ◌>>=◌
  after_connect-out span no_context d w = refl
  after_connect-out span (failed m) d w = refl
  after_connect-out span connected d w = rw (Shows-returned (run_commands-Shows span) d w)

  finish-out :
      (span : Option ℕ) (res : Response) (c : Connection) (e d : ℕ) (w : World api_of.Env)
      → ((after_connect api_of config span c >>= report api_of config e res) d w).out
        ≡ returned (response_of config res c)
  unfolding ◌>>=◌ report
  finish-out span res no_context e d w = rw (after_connect-out span no_context d w)
  finish-out span res (failed m) e d w = rw (after_connect-out span (failed m) d w)
  finish-out span res connected e d w = rw (after_connect-out span connected d w)

  finish-seen :
      (span : Option ℕ) (res : Response) (c : Connection) (e d : ℕ) (w : World api_of.Env)
      → seen api_text ((after_connect api_of config span c >>= report api_of config e res) d w).log
        ≡ commands_of c
  finish-seen span res c e d w =
      ((Shows-bind (after_connect-Shows span c) (report-Shows e res)).at d w).1
      ∙ append-nil (commands_of c)

  -- A Redis request always gets a response, and only the attempt to connect decides which: on a
  -- connection the body lists the commands and the status is 200, else the body carries hiredis' error
  -- text and the status is 503, whatever the commands themselves are answered. On a connection the span
  -- events record exactly the twelve commands of the session, in order; without one they record none.
  pub handle_run_demo-out :
      (req : Request) (res : Response) (d : ℕ) (w : World api_of.Env)
      → let c = (api_of.connect config.host config.port w.env).0 in
        let r = handle_run_demo api_of config req res d w in
        (r.out ≡ returned (response_of config res c)) × (seen api_text r.log ≡ commands_of c)
  unfolding handle_run_demo ◌>>=◌ run_redis_demo seen
  handle_run_demo-out req res d w =
      let c = (api_of.connect config.host config.port w.env).0 in
      let v = record w { env = (api_of.connect config.host config.port w.env).1 } in
      let r = (after_connect api_of config w.current c >>= report api_of config d res) (suc d) v in
      (
        finish-out w.current res c d (suc d) v,
        seen-scope api_text r.log r.out d ∙ finish-seen w.current res c d (suc d) v,
      )
