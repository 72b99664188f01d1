-- ===== src/Tests/Requests.antt =====
-- Requests to the database examples.
use pinpoint_cpp_examples.Common.{ℕ, ◌≡◌, ◌+◌, false, none, some, [], lit}
use pinpoint_cpp_examples.Common.Int.{pos}
use pinpoint_cpp_examples.Trace.Program.{World, value, throws, std_exception, returned, ask}
use pinpoint_cpp_examples.Trace.Shows.{api_text, seen}
use pinpoint_cpp_examples.Trace.Balanced.{Anything, IsBalanced-ask_any}
use pinpoint_cpp_examples.Http.{Request, Response, Handler, wrap_handler}
use pinpoint_cpp_examples.Http.Wrapped.{Ended, Left, wrap_handler-Left}
use pinpoint_cpp_examples.Redis.Command.{Hiredis, Config, connected, error_reply}
use pinpoint_cpp_examples.Redis.Demo.{serve as serve_redis}
use pinpoint_cpp_examples.Redis.Commands.{session, response_of as redis_response}
use pinpoint_cpp_examples.Redis.Served.{redis_request-Ended}
use pinpoint_cpp_examples.Trace.{redis_reply}
use pinpoint_cpp_examples.Trace.Resources.{Owes}
use pinpoint_cpp_examples.Redis
use pinpoint_cpp_examples.Redis.Owned.{handle_run_demo-Owes}
use pinpoint_cpp_examples.Mongo.Demo.{Mongocxx, serve as serve_mongo}
use pinpoint_cpp_examples.Mongo.Traced.{query_text, queries, response_of as mongo_response}
use pinpoint_cpp_examples.Mongo.Served.{mongo_request-Ended}

abbrev pub get_run_demo : Request
get_run_demo = record {
  path = lit "/run_demo";
  method = lit "GET";
  matched_route = lit "/run_demo";
  remote_addr = lit "127.0.0.1";
  local_addr = lit "127.0.0.1";
  local_port = 8093;
  get_header_value = λ name. lit "localhost:8093";
  has_param = λ name. false;
  get_param_value = λ name. [];
  matches = [];
}

abbrev pub fresh : Response
fresh = record { status = 0; body = []; content_type = []; headers = [] }

-- A server that refuses every command; the environment counts the commands.
abbrev refusing : Hiredis
refusing = record {
  Env = ℕ;
  connect = λ host port n. (connected, n);
  command = λ format args n. (some (error_reply (lit "ERR")), n + 1);
  errstr = λ n. ([], n);
}

abbrev local_redis : Config
local_redis = record { host = lit "localhost"; port = pos 6379; endpoint = lit "localhost:6379" }

abbrev pub idle : World ℕ
idle = record { current = none; env = 0 }

redis_request-Ended_example :
    let r = serve_redis refusing local_redis 7 get_run_demo fresh 0 idle in
    Ended r
    × (r.out ≡ returned (redis_response local_redis fresh connected))
    × (seen api_text r.log ≡ session)
redis_request-Ended_example = redis_request-Ended refusing local_redis 7 get_run_demo fresh idle

-- A client can be constructed, and each operation throws.
abbrev offline : Mongocxx
offline = record {
  Env = ℕ;
  connect = λ uri n. (value tt, n);
  insert_one = λ n. (throws (std_exception (lit "No suitable servers")), n + 1);
  find = λ n. (throws (std_exception (lit "No suitable servers")), n + 1);
  update_one = λ n. (throws (std_exception (lit "No suitable servers")), n + 1);
  delete_one = λ n. (throws (std_exception (lit "No suitable servers")), n + 1);
}

mongo_request-Ended_example :
    let uri = lit "mongodb://localhost:27017" in
    let r = serve_mongo offline uri 7 get_run_demo fresh 0 idle in
    Ended r
    × (r.out ≡ returned (mongo_response uri fresh (value tt)))
    × (seen query_text r.log ≡ queries)
mongo_request-Ended_example =
    mongo_request-Ended offline (lit "mongodb://localhost:27017") 7 get_run_demo fresh idle

-- A handler whose database is down, and one that answers at once.
abbrev failing : Handler ℕ
failing req res = ask (λ n. (throws (std_exception (lit "connection refused")), n))

abbrev prompt : Handler ℕ
prompt req res = ask (λ n. (value (record res { status = 200 }), n))

wrap_handler-Left_example :
    Left 7
      (wrap_handler (lit "Demo") 7 failing get_run_demo fresh 0 idle)
      (failing get_run_demo fresh 0 (record idle { current = some 7 })).out
wrap_handler-Left_example =
    wrap_handler-Left Anything (lit "Demo") 7 failing get_run_demo fresh idle (IsBalanced-ask_any _)
      tt

handle_run_demo-Owes_example :
    Owes redis_reply 0 0 (Redis.Demo.handle_run_demo refusing local_redis get_run_demo fresh)
handle_run_demo-Owes_example =
    handle_run_demo-Owes refusing local_redis {r = redis_reply} get_run_demo fresh
