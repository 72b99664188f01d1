-- ===== src/Startup.antt =====
-- The `main` functions of the C++ examples: how the agent is started, what is set up around it, and how the
-- programs end. `listen` and `Wait` return when the server stops, so each is told whether it has.
pub mod Life
use pinpoint_cpp_examples.Common.{
  ℕ, Bool, true, false, Option, none, some, List, [], ◌∷◌, ◌++◌, Text, lit,
}
use pinpoint_cpp_examples.Common.Environ.{Environ, getenv, set_defaults}

-- `start_agent` carries the environment that it reads; `producer_create` and `build_server` whether they
-- give an object.
pub data Act : Type 0 where
  start_agent : Environ → Act
  global_agent : Act
  mongo_instance : Act
  create_stub : Text → Act
  build_server : Bool → Act
  conf_create : Act
  conf_delete : Act
  producer_create : Text → Bool → Act
  producer_flush : Act
  producer_delete : Act
  register : Text → Act
  set_pre_routing_handler : Act
  register_options : Text → Act
  listen : Text → ℕ → Act
  wait : Act
  shutdown : Act

-- `setenv` for each example.
abbrev pub Defaults : Type 0
Defaults = List (Text × Text)

abbrev pub named : Text → Defaults → Defaults
named name more =
    (lit "PINPOINT_CPP_APPLICATION_NAME", name) ∷ (lit "PINPOINT_CPP_UID_VERSION", lit "v3") ∷ more

-- `if (const char* value = std::getenv(name)) { setting = value; }`.
unfoldable pub setting : Text → Text → Environ → Text
setting name default env = elim (getenv name env) [ none ↦ default | some value ↦ value ]

-- What a program has called, and its exit code, if it has ended.
abbrev pub Ran : Type 0
Ran = List Act × Option ℕ

unfoldable pub serving : Act → Bool → List Act → Ran
serving server true behind = (server ∷ behind, some 0)
serving server false behind = (server ∷ [], none)

abbrev pub after : List Act → Ran → Ran
after acts ran = (acts ++ ran.0, ran.1)

abbrev pub redis_defaults : Defaults
redis_defaults = named (lit "cpp-redis-demo") []

abbrev pub mongo_defaults : Defaults
mongo_defaults = named (lit "cpp-mongodb-demo") []

abbrev pub curl_defaults : Defaults
curl_defaults = named (lit "cpp-curl-demo") []

abbrev pub cpptrace_defaults : Defaults
cpptrace_defaults =
    named (lit "cpp-cpptrace-demo") ((lit "PINPOINT_CPP_ENABLE_CALLSTACK_TRACE", lit "true") ∷ [])

abbrev pub client_defaults : Defaults
client_defaults = named (lit "cpp-grpc-client-demo") []

abbrev pub server_defaults : Defaults
server_defaults =
    named (lit "cpp-grpc-server-demo")
      ((lit "PINPOINT_CPP_HTTP_COLLECT_URL_STAT", lit "false") ∷ [])

abbrev pub producer_defaults : Defaults
producer_defaults = named (lit "cpp-kafka-producer-demo") []

abbrev pub mysql_defaults : Defaults
mysql_defaults = named (lit "cpp-mysql-demo") (
    (lit "PINPOINT_CPP_SQL_ENABLE_SQL_STATS", lit "true")
    ∷ (lit "PINPOINT_CPP_HTTP_COLLECT_URL_STAT", lit "true")
    ∷ [])

module _ (env : Environ) where
  -- The calls of `setenv`, `StartAgent()`, whose failure is only printed, and `GlobalAgent()`.
  unfoldable pub agent_up : Defaults → List Act
  agent_up defaults = start_agent (set_defaults defaults env) ∷ global_agent ∷ []

  unfoldable pub redis_main : Bool → Ran
  unfolding serving agent_up
  redis_main returns =
      after (agent_up redis_defaults ++ register (lit "/run_demo") ∷ [])
        (serving (listen (lit "0.0.0.0") 8093) returns (shutdown ∷ []))

  unfoldable pub mongo_main : Bool → Ran
  unfolding serving agent_up
  mongo_main returns =
      after (agent_up mongo_defaults ++ mongo_instance ∷ register (lit "/run_demo") ∷ [])
        (serving (listen (lit "0.0.0.0") 8092) returns (shutdown ∷ []))

  unfoldable pub curl_main : Bool → Ran
  unfolding serving agent_up
  curl_main returns =
      after (agent_up curl_defaults ++ register (lit "/run_request") ∷ [])
        (serving (listen (lit "0.0.0.0") 8091) returns (shutdown ∷ []))

  unfoldable pub cpptrace_main : Bool → Ran
  unfolding serving agent_up
  cpptrace_main returns =
      after
        (agent_up cpptrace_defaults
          ++ register (lit "/users/(\\d+)") ∷ register (lit "/outgoing") ∷ [])
        (serving (listen (lit "0.0.0.0") 8088) returns (shutdown ∷ []))

  unfoldable pub grpc_client_main : Bool → Ran
  unfolding serving agent_up setting
  grpc_client_main returns =
      after
        (agent_up client_defaults
          ++ create_stub (setting (lit "GRPC_TARGET") (lit "localhost:50051") env)
            ∷ register (lit "/run_client")
            ∷ [])
        (serving (listen (lit "0.0.0.0") 8094) returns (shutdown ∷ []))

  -- The first Boolean says whether `BuildAndStart` gives a server.
  unfoldable pub grpc_server_main : Bool → Bool → Ran
  unfolding serving agent_up
  grpc_server_main false returns = (agent_up server_defaults ++ build_server false ∷ [], some 1)
  grpc_server_main true returns =
      after (agent_up server_defaults ++ build_server true ∷ [])
        (serving wait returns (shutdown ∷ []))

  brokers : Text
  unfolding setting
  brokers = setting (lit "KAFKA_BROKERS") (lit "localhost:9092") env

  -- The first Boolean says whether there is a producer.
  unfoldable pub kafka_producer_main : Bool → Bool → Ran
  unfolding serving agent_up brokers
  kafka_producer_main false returns = (
    agent_up producer_defaults ++ conf_create ∷ producer_create brokers false ∷ conf_delete ∷ [],
    some 1,
  )
  kafka_producer_main true returns =
      after
        (agent_up producer_defaults
          ++ conf_create
            ∷ producer_create brokers true
            ∷ conf_delete
            ∷ register (lit "/run_producer")
            ∷ [])
        (serving (listen (lit "0.0.0.0") 8090) returns
          (producer_flush ∷ producer_delete ∷ shutdown ∷ []))

  -- With an agent, as `if (agent)` asks.
  unfoldable pub mysql_main : Bool → Ran
  unfolding serving agent_up
  mysql_main returns =
      after
        (agent_up mysql_defaults
          ++ register (lit "/db-demo")
            ∷ register (lit "/status")
            ∷ set_pre_routing_handler
            ∷ register_options (lit ".*")
            ∷ [])
        (serving (listen (lit "localhost") 8089) returns (shutdown ∷ []))
