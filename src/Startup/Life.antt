-- ===== src/Startup/Life.antt =====
-- How the programs start and end.
use pinpoint_cpp_examples.Common.{
  ℕ, zero, suc, Bool, true, false, Option, none, some, List, [], ◌∷◌,
}
use pinpoint_cpp_examples.Common.Environ.{Environ}
use pinpoint_cpp_examples.Startup.{
  Act, start_agent, global_agent, mongo_instance, create_stub, build_server, conf_create,
  conf_delete, producer_create, producer_flush, producer_delete, register, set_pre_routing_handler,
  register_options, listen, wait, shutdown, Defaults, Ran, redis_defaults, mongo_defaults,
  curl_defaults, cpptrace_defaults, client_defaults, server_defaults, producer_defaults,
  mysql_defaults, redis_main, mongo_main, curl_main, cpptrace_main, grpc_client_main,
  grpc_server_main, kafka_producer_main, mysql_main,
}

-- The programs; some may fail to set their server or producer up.
pub data Example : Type 0 where
  redis_example : Example
  mongo_example : Example
  curl_example : Example
  cpptrace_example : Example
  grpc_client : Example
  grpc_server : (builds : Bool) → Example
  kafka_producer : (creates : Bool) → Example
  mysql_example : Example

abbrev pub main_of : Environ → Bool → Example → Ran
main_of env returns redis_example = redis_main env returns
main_of env returns mongo_example = mongo_main env returns
main_of env returns curl_example = curl_main env returns
main_of env returns cpptrace_example = cpptrace_main env returns
main_of env returns grpc_client = grpc_client_main env returns
main_of env returns (grpc_server b) = grpc_server_main env b returns
main_of env returns (kafka_producer b) = kafka_producer_main env b returns
main_of env returns mysql_example = mysql_main env returns

abbrev pub defaults_of : Example → Defaults
defaults_of redis_example = redis_defaults
defaults_of mongo_example = mongo_defaults
defaults_of curl_example = curl_defaults
defaults_of cpptrace_example = cpptrace_defaults
defaults_of grpc_client = client_defaults
defaults_of (grpc_server b) = server_defaults
defaults_of (kafka_producer b) = producer_defaults
defaults_of mysql_example = mysql_defaults

-- The order of the calls: the agent is started and fetched before anything else, the server runs once, a
-- producer is flushed and deleted behind it, and the agent is shut down last. `ready` has no Kafka object.
pub data Stage : Type 0 where
  booting : Stage
  started : Stage
  ready : Stage
  configured : Stage
  has_both : Stage
  producing : Stage
  in_server : (has_producer : Bool) → Stage
  flushed : Stage
  over : Stage

step : Stage → Act → Option Stage
step booting (start_agent env) = some started
step started global_agent = some ready
step ready mongo_instance = some ready
step ready (create_stub target) = some ready
step ready (build_server b) = some ready
step ready conf_create = some configured
step configured (producer_create list true) = some has_both
step configured (producer_create list false) = some configured
step configured conf_delete = some ready
step has_both conf_delete = some producing
step ready (register path) = some ready
step ready set_pre_routing_handler = some ready
step ready (register_options path) = some ready
step producing (register path) = some producing
step ready (listen host port) = some (in_server false)
step ready wait = some (in_server false)
step producing (listen host port) = some (in_server true)
step (in_server true) producer_flush = some flushed
step flushed producer_delete = some (in_server false)
step (in_server false) shutdown = some over
step _ _ = none

and_then : Option Stage → (Stage → Option Stage) → Option Stage
and_then none f = none
and_then (some p) f = f p

unfoldable pub life : Stage → List Act → Option Stage
unfolding step and_then
life p [] = some p
life p (a ∷ acts) = and_then (step p a) (λ q. life q acts)

abbrev pub has_producer : Example → Bool
has_producer (kafka_producer b) = b
has_producer _ = false

-- Where a program is: in its server, ended, or ended with 1, which leaves the agent running.
abbrev pub standing : Example → Option ℕ → Stage
standing x none = in_server (has_producer x)
standing x (some zero) = over
standing x (some (suc n)) = ready

-- The environment that the agent is started in.
abbrev pub environment_of : List Act → Environ
environment_of [] = []
environment_of (start_agent env ∷ acts) = env
environment_of (a ∷ acts) = environment_of acts
