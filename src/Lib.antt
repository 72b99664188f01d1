-- ===== src/Lib.antt =====
-- A model of the Pinpoint C and C++ examples: programs that call databases, web services and gRPC and
-- report what they do to the Pinpoint agent as spans and span events.
--
-- The agent, hiredis, libcurl, mongocxx, the MySQL connector, librdkafka,
-- cpp-httplib, cpptrace, gRPC, CivetWeb and nginx are other projects. The
-- agent is a log of the calls that are made on it; the database clients are records of functions on an
-- arbitrary environment, so a theorem holds whatever they answer; of the frameworks only the data that
-- they hand over is modelled.
--
-- Parts, files and sources:
--
-- - Common: bytes (`Text`), searching, decimal printing, `printf`, the environment of a process
--   (`setenv`, `getenv`), lists. `lower` is `std::tolower`.
-- - Trace: the calls of the C++ agent interface (`Call`), the monad of the examples' code
--   (`Trace/Program`: a log of calls, the thread's span, an environment, exceptions and faults), the
--   discipline that spans and span events follow (`Trace/Protocol`), and the program logics:
--   `Trace/Balanced` (the events opened are closed, on return and on throw), `Trace/Shows` (what the
--   span events are told), `Trace/Meets` (the same with pre- and postconditions), `Trace/Goes` (from
--   one state of the protocol to another), `Trace/Does` (the result and the environment afterwards),
--   `Trace/Resources` (the objects of other libraries are given back) and
--   `Trace/Drives` (the log drives a machine).
-- - Http: `trace_request`, `trace_response` and `wrap_handler`, which stand alike in
--   redis/redis_example.cpp, mongodb/mongo_example.cpp, mysql/mysql_example.cpp,
--   cpptrace/cpptrace_example.cpp and grpc/grpc_client.cpp; each example's `serve` passes its own
--   application name. `Http/Server` is a thread that serves requests one after the other.
-- - Redis: redis/redis_example.cpp. `Redis/Command` is `execute_command`, `Redis/Demo` the script of
--   commands and the HTTP handler, `Redis/Settings` what it reads from the environment.
--   The C library's objects are acquired and released in the log.
-- - Mongo: mongodb/mongo_example.cpp. `Mongo/Demo` has `trace_mongo_op`, the demo and its handler.
-- - Mysql: mysql/mysql_example.cpp. `Mysql/Session` is the configuration and the session,
--   `Mysql/Queries` the traced queries, `Mysql/Demo` the script and its JSON document,
--   `Mysql/Handlers` the two HTTP handlers. A query through a null session is a fault. The body of
--   the `try` in `runDemoHandler` is a list of steps, each with the queries and the `addOperation`
--   behind them. `Mysql/Threads` is what requests on several threads do to the one session that they
--   share, as a step relation. `Mysql/Server` is what `main` registers, the CORS handlers, a thread that
--   serves requests and the destructor of `DatabaseDemo`; cpp-httplib's routing is a parameter.
--   `Mysql/Phases` is where a thread stands between two calls, and ties the code to `Mysql/Threads`,
--   and `Mysql/Ownership` says when a session may be destroyed.
-- - Grpc: `Grpc/Peer` has `ResolvePeerHost` and `ResolveGrpcTarget`, `Grpc/Server` and `Grpc/Client`
--   the two interceptors of grpc/pinpoint_grpc_interceptors.h as functions of a batch and their state,
--   `Grpc/Metadata` the reader and the writer of grpc/pinpoint_grpc_context.h.
--   `Grpc/Service` is the service of grpc/grpc_server.cpp with its four methods, `Grpc/Calls` the three
--   calls and the HTTP handler of grpc/grpc_client.cpp, which run the client interceptor.
-- - Curl: curl/curl_web_example.cpp. `Curl/Headers` is the header writer and reader and
--   `extract_host`, `Curl/Received` the write callback, `Curl/Request` the traced request and the HTTP
--   handler, `Curl/Sent` what they hand to libcurl and `Curl/Owned` what they free.
-- - Capi: the calls of the C agent interface and their order.
-- - Civetweb: civetweb/civetweb_example.c. `Civetweb/Headers` is the two header carriers,
--   `Civetweb/Handlers` the three handlers as what they send to the agent and to the connection,
--   `Civetweb/Main` is `main` along the answers of `getchar`.
-- - Cpptrace: `Cpptrace/Stack` is the call stack reader and `Cpptrace/Handlers` the two handlers of
--   cpptrace/cpptrace_example.cpp; `Cpptrace/Headers` is the reader and the writer of
--   cpptrace/http_trace_context.h, which the other HTTP examples include; `Cpptrace/Sent` is what an
--   /outgoing request hands to the HTTP client.
-- - Kafka: `Kafka/Headers` is kafka/kafka_trace_context.h, `Kafka/Producer` the HTTP handler of
--   kafka/kafka_web_producer.cpp, `Kafka/Sent` what it hands to librdkafka, `Kafka/Consumer` the
--   loop of kafka/kafka_consumer.cpp along a schedule of polls and of the signal.
-- - Startup: the `main` functions of the C++ examples; the Kafka consumer's is in `Kafka/Consumer`.
-- - Nginx: nginx/ngx_http_pinpoint_module.c. `Nginx/Worker` is the life of a process, `Nginx/Headers`
--   the header lookup, `Nginx/CString` the copy into a stack buffer, `Nginx/Upstream` the upstream
--   event, `Nginx/Log` the log handler and `Nginx/Module` the directives, slots and phase handler that
--   nginx is given. Numbers of 64 and 32 bits wrap around.
-- - Tests: the theorems at concrete inputs, and runs of the model.
--
-- No function of the model needs fuel: loops are recursion on the list or the count that they go
-- through; where a program waits for signals or reads from a stream the list is the schedule of what it
-- gets. Redis' `vsnprintf` cuts a command to 1023 bytes, CivetWeb's `snprintf` an address to 63.
--
-- Not modelled: console output, sleeps, the producer's delivery report, which only prints. Requests run on
-- one thread at a time but in `Mysql/Threads`; what threads do to other shared objects is not covered.
pub mod Capi
pub mod Civetweb
pub mod Common
pub mod Cpptrace
pub mod Curl
pub mod Grpc
pub mod Http
pub mod Kafka
pub mod Mongo
pub mod Mysql
pub mod Nginx
pub mod Redis
pub mod Startup
pub mod Tests
pub mod Trace
