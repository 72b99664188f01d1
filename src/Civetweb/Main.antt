-- ===== src/Civetweb/Main.antt =====
-- `main` of the CivetWeb example, as the list of its calls, and the life of its agent and its server.
-- `getchar` decides how long the program waits, so the model takes its answers as a schedule.
use pinpoint_cpp_examples.Common.{
  ℕ, ◌≡◌, refl, Bool, true, false, Option, none, some, List, [], ◌∷◌, ◌++◌, Text, lit,
}
use pinpoint_cpp_examples.Common.Environ.{
  Environ, getenv, set_defaults, or_default, default_of, getenv-set_defaults,
}

-- `start_agent` carries the environment that it reads, and whether it succeeds; `global_agent` and
-- `mg_start` whether they return a pointer.
pub data Act : Type 0 where
  start_agent : Environ → Bool → Act
  global_agent : Bool → Act
  mg_start : Bool → Act
  mg_set_request_handler : Text → Act
  pause : Act
  mg_stop : Act
  agent_shutdown : Act
  agent_destroy : Act

pub record Answers : Type 0 where
  pub starts : Bool
  pub has_agent : Bool
  pub has_context : Bool

-- `if (g_agent != NULL)`.
leave_agent : Bool → List Act
leave_agent false = []
leave_agent true = agent_shutdown ∷ agent_destroy ∷ []

-- `while (getchar() == EOF) pause();` for these answers of `getchar`, and whether it has ended.
wait_loop : List Bool → List Act × Bool
wait_loop [] = ([], false)
wait_loop (false ∷ answers) = ([], true)
wait_loop (true ∷ answers) = let (acts, ended) = wait_loop answers in (pause ∷ acts, ended)

-- Behind the loop; while it runs there is no exit code.
stopped : Bool → List Act × Bool → List Act × Option ℕ
unfolding leave_agent
stopped has_agent (acts, false) = (acts, none)
stopped has_agent (acts, true) = (acts ++ mg_stop ∷ leave_agent has_agent, some 0)

-- From `mg_start` on.
with_context : Bool → Bool → List Bool → List Act × Option ℕ
unfolding wait_loop stopped
with_context has_agent false answers = (mg_start false ∷ leave_agent has_agent, some 1)
with_context has_agent true answers =
    let (acts, code) = stopped has_agent (wait_loop answers) in
    (
      mg_start true
          ∷ mg_set_request_handler (lit "/")
          ∷ mg_set_request_handler (lit "/api/users")
          ∷ mg_set_request_handler (lit "/api/health")
          ∷ acts,
      code,
    )

abbrev pub defaults : List (Text × Text)
defaults =
    (lit "PINPOINT_CPP_APPLICATION_NAME", lit "cpp-civetweb-demo")
    ∷ (lit "PINPOINT_CPP_UID_VERSION", lit "v3")
    ∷ []

unfoldable pub main : Environ → Answers → List Bool → List Act × Option ℕ
unfolding with_context
main env answers chars =
    let (acts, code) = with_context answers.has_agent answers.has_context chars in
    (
      start_agent (set_defaults defaults env) answers.starts
          ∷ global_agent answers.has_agent
          ∷ acts,
      code,
    )

-- Whether the program holds an agent, and where its server is.
pub data Stage : Type 0 where
  booting : Stage
  started : Stage
  ready : Bool → Stage
  serving : Bool → Stage
  stopping : Bool → Stage
  shut : Stage
  over : Stage

step : Stage → Act → Option Stage
step booting (start_agent env b) = some started
step started (global_agent b) = some (ready b)
step (ready b) (mg_start true) = some (serving b)
step (ready b) (mg_start false) = some (stopping b)
step (serving b) (mg_set_request_handler path) = some (serving b)
step (serving b) pause = some (serving b)
step (serving b) mg_stop = some (stopping b)
step (stopping true) agent_shutdown = some shut
step shut agent_destroy = some over
step _ _ = none

and_then : Option Stage → (Stage → Option Stage) → Option Stage
and_then none f = none
and_then (some p) f = f p

unfoldable pub life : Stage → List Act → Option Stage
unfolding step and_then
life p [] = some p
life p (a ∷ acts) = and_then (step p a) (λ q. life q acts)

-- Where the program is when it has this exit code, or none yet. Without an agent nothing is left to do when
-- the server is gone.
abbrev pub standing : Bool → Option ℕ → Stage
standing has_agent none = serving has_agent
standing true (some code) = over
standing false (some code) = stopping false

paused-life :
    (b : Bool) (r : List Act × Bool)
    → life (serving b) (stopped b r).0 ≡ some (standing b (stopped b r).1)
    → let t = stopped b (pause ∷ r.0, r.1) in life (serving b) t.0 ≡ some (standing b t.1)
unfolding stopped life
paused-life b (acts, true) h = h
paused-life b (acts, false) h = h

stop-life : (b : Bool) → life (serving b) (mg_stop ∷ leave_agent b) ≡ some (standing b (some 0))
unfolding life leave_agent
stop-life true = refl
stop-life false = refl

wait-life :
    (b : Bool) (chars : List Bool)
    → let r = stopped b (wait_loop chars) in life (serving b) r.0 ≡ some (standing b r.1)
unfolding wait_loop stopped life
wait-life b [] = refl
wait-life b (false ∷ chars) = stop-life b
wait-life b (true ∷ chars) = paused-life b (wait_loop chars) (wait-life b chars)

-- The environment that the agent is started in.
abbrev pub environment_of : List Act → Environ
environment_of [] = []
environment_of (start_agent env b ∷ acts) = env
environment_of (a ∷ acts) = environment_of acts

-- Whatever the agent and CivetWeb answer and however the program is signalled, it starts the agent once,
-- with the user's settings and for those that are missing the defaults. Its server is stopped before its
-- agent, where there is one, is shut down and then destroyed, also when the server cannot start. Without an
-- exit code the program waits with both alive; with one both are gone.
pub civetweb_main-life :
    (env : Environ) (answers : Answers) (chars : List Bool) (asked : Text)
    → let r = main env answers chars in
      (life booting r.0 ≡ some (standing answers.has_agent r.1))
      × (getenv asked (environment_of r.0)
          ≡ or_default (getenv asked env) (default_of asked defaults))
unfolding main with_context life leave_agent
civetweb_main-life env answers chars asked =
    (by_answers answers.has_agent answers.has_context, getenv-set_defaults asked defaults env)
  where
    by_answers :
        (a c : Bool)
        → let r = main env (record answers { has_agent = a; has_context = c }) chars in
          life booting r.0 ≡ some (standing a r.1)
    by_answers true false = refl
    by_answers false false = refl
    by_answers a true = wait-life a chars
