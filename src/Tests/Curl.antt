-- ===== src/Tests/Curl.antt =====
-- Requests to the cURL example.
use pinpoint_cpp_examples.Common.{
  List, All, Text, arith, ℕ, ◌≡◌, refl, true, false, c_string, none, some, [], ◌∷◌, lit,
}
use pinpoint_cpp_examples.Common.Search.{find_char, find_text, starts_with}
use pinpoint_cpp_examples.Trace.Protocol.{closed}
use pinpoint_cpp_examples.Trace.Goes.{Goes}
use pinpoint_cpp_examples.Curl.Headers.{get, trim_value, extract_host}
use pinpoint_cpp_examples.Curl.Received.{Chunk}
use pinpoint_cpp_examples.Curl.Lookup.{IsPlain, first_named}
use pinpoint_cpp_examples.Curl.Sent.{recording, handle_run_request-Sent}
use pinpoint_cpp_examples.Curl.Request.{Written, written_headers, Curl, target, handle_run_request}
use pinpoint_cpp_examples.Trace.Shows.{IsReturned}
use pinpoint_cpp_examples.Trace.Drives.{drive}
use pinpoint_cpp_examples.Curl.Owned.{hold_step, handle_run_request-Owes}
use pinpoint_cpp_examples.Curl.Served.{Responded, fetched, curl_request-Ended}
use pinpoint_cpp_examples.Tests.Requests.{get_run_demo, fresh, idle}

host_and_port : extract_host (lit "http://localhost:8080/x") ≡ lit "localhost:8080"
unfolding extract_host lit find_char find_text starts_with
host_and_port = refl

query_kept : extract_host (lit "http://host?x=1") ≡ lit "host?x=1"
unfolding extract_host lit find_char find_text starts_with
query_kept = refl

abbrev two_written : List Written
two_written =
    record { has_memory = true; key = lit "Pinpoint-Sampled"; value = lit "s0" }
    ∷ record { has_memory = true; key = lit "pinpoint-sampled"; value = lit "s1" }
    ∷ []

two_written-IsPlain : All IsPlain two_written
unfolding lit trim_value
two_written-IsPlain = (
  (refl, ground arith, refl, ground arith, ground arith),
  ((refl, ground arith, refl, ground arith, ground arith), tt),
)

-- A server that sends "OK" in two pieces.
abbrev piece : ℕ → Chunk
piece c = record { contents = c ∷ []; size = 1; nmemb = 1 }

abbrev in_pieces : Curl
in_pieces = record {
  Env = ℕ;
  init = λ n. (true, n);
  injected = λ n. (two_written, n);
  perform = λ url headers n.
      (record { error = none; response_code = 200; chunks = piece b'O' ∷ piece b'K' ∷ [] }, n);
  perform_whole = λ url headers n. ((refl, refl, ground arith), ((refl, refl, ground arith), tt));
}

curl_request-Ended_example :
    Goes closed closed
      (Responded true
        (fetched in_pieces 7 (target in_pieces (lit "http://google.com") get_run_demo) 0)
        fresh)
      (handle_run_request in_pieces (lit "http://google.com") 7 get_run_demo fresh 0 idle)
curl_request-Ended_example =
    curl_request-Ended in_pieces (lit "http://google.com") 7 get_run_demo fresh idle

-- Curl has no memory for the second of three headers, and the list with the first one is lost.
abbrev forgetful : Curl
forgetful = record {
  Env = ℕ;
  init = λ n. (true, n);
  injected = λ n. (
    record { has_memory = true; key = lit "Pinpoint-TraceID"; value = lit "a^1^2" }
        ∷ record { has_memory = false; key = lit "Pinpoint-SpanID"; value = lit "3" }
        ∷ record { has_memory = true; key = lit "Pinpoint-Sampled"; value = lit "s0" }
        ∷ [],
    n,
  );
  perform = λ url headers n.
      (record { error = some (lit "Could not resolve host"); response_code = 0; chunks = [] }, n);
  perform_whole = λ url headers n. tt;
}

handle_run_request-Owes_example :
    let r = handle_run_request forgetful (lit "http://google.com") 7 get_run_demo fresh 0 idle in
    IsReturned r.out × (drive hold_step (0, 0) r.log ≡ some (0, 1))
handle_run_request-Owes_example =
    handle_run_request-Owes forgetful (lit "http://google.com") 7 get_run_demo fresh 0 idle

handle_run_request-Sent_example :
    let url = target in_pieces (lit "http://google.com") get_run_demo in
    let r =
      handle_run_request
        (recording in_pieces)
        (lit "http://google.com")
        7
        get_run_demo
        fresh
        0
        (record { current = none; env = (0, []) }) in
    (r.world.env.1 ≡ (c_string url, written_headers two_written []) ∷ [])
    × ((asked : Text) → get asked (written_headers two_written []) ≡ first_named asked two_written)
handle_run_request-Sent_example =
    handle_run_request-Sent in_pieces (lit "http://google.com") 7 get_run_demo fresh
      (record { current = none; env = (0, []) }) two_written-IsPlain
