-- ===== src/Tests/Cpptrace.antt =====
-- The cpptrace example.
use pinpoint_cpp_examples.Common.{
  ℕ, ◌+◌, ◌≡◌, refl, Bool, none, some, Option, List, [], ◌∷◌, Text, lit, text_eq, arith, lower,
  is_empty, if◌then◌else◌,
}
use pinpoint_cpp_examples.Common.Int.{pos}
use pinpoint_cpp_examples.Common.Search.{rfind_text, find_text, starts_with}
use pinpoint_cpp_examples.Trace.Program.{World, value, throws, std_exception}
use pinpoint_cpp_examples.Grpc.Metadata.{to_lower}
use pinpoint_cpp_examples.Cpptrace.Stack.{
  Frame, Reports, for_each, report_of, is_hidden, name_of, place_of, to_int, for_each-Reports,
}
use pinpoint_cpp_examples.Cpptrace.Headers.{Multimap, KeepsPairs, get, first_hit}
use pinpoint_cpp_examples.Cpptrace.Handlers.{Httplib, serve_outgoing, handle_outgoing}
use pinpoint_cpp_examples.Cpptrace.Sent.{Asked, recording, sent_headers, handle_outgoing-Sent}
use pinpoint_cpp_examples.Cpptrace.Served.{client_of, result_of, Concluded, outgoing_request-Ended}
use pinpoint_cpp_examples.Tests.Requests.{get_run_demo, fresh, idle}

abbrev two_frames : List Frame
two_frames =
    record { symbol = lit "std::invoke"; filename = lit "functional"; line = some 61 }
    ∷ record { symbol = lit "demo::Client::Get"; filename = lit "client.cpp"; line = some 42 }
    ∷ []

for_each_two :
    for_each (λ s. s) (λ s. s) two_frames
    ≡ record {
      module_name = lit "demo::Client";
      function = lit "Get";
      file = lit "client.cpp";
      line = pos 42;
    }
      ∷ []
unfolding for_each report_of is_hidden name_of place_of to_int rfind_text find_text starts_with
    is_empty lit
for_each_two = refl

for_each-Reports_example :
    Reports (λ s. s) (λ s. s) two_frames (for_each (λ s. s) (λ s. s) two_frames)
for_each-Reports_example = for_each-Reports (λ s. s) (λ s. s) two_frames

abbrev same_key : Text → Text → Bool
same_key a b = text_eq (to_lower a) (to_lower b)

abbrev find_key : Text → List (Text × Text) → Option Text
find_key key [] = none
find_key key ((k, v) ∷ rest) = if same_key key k then some v else find_key key rest

abbrev listed : Multimap
listed = record {
  Headers = List (Text × Text);
  empty = [];
  emplace = λ key value h. (key, value) ∷ h;
  find = find_key;
  pairs = λ h. h;
  same = same_key;
}

listed_keeps : KeepsPairs listed
listed_keeps = record {
  empty_find = λ key. refl;
  emplaced = λ asked key value h e f. rw e refl;
  kept = λ asked key value h e. rw e refl;
}

abbrev context : List (Text × Text)
context = (lit "Pinpoint-TraceID", lit "a^1^2") ∷ (lit "Pinpoint-SpanID", lit "3") ∷ []

-- A host that cannot be reached, and `ftp://x`, for which there is no client.
abbrev unreachable : Httplib
unreachable = record {
  Env = ℕ;
  map = listed;
  client = λ host n.
      if text_eq host (lit "ftp://x")
      then (throws (std_exception (lit "unsupported scheme")), n)
      else (value tt, n);
  get_url = λ host path headers n.
      (record { response = none; error = some (lit "Could not establish connection") }, n + 1);
  context = λ n. (context, n);
}

outgoing_request-Ended_example :
    Concluded unreachable 7 get_run_demo fresh
      (result_of unreachable get_run_demo 0)
      (client_of unreachable get_run_demo 0).0
      (serve_outgoing unreachable 7 get_run_demo fresh 0 idle)
outgoing_request-Ended_example = outgoing_request-Ended unreachable 7 get_run_demo fresh idle

handle_outgoing-Sent_example :
    let w : World (ℕ × List (Asked unreachable)) = record { current = some 7; env = (0, []) } in
    ((handle_outgoing (recording unreachable) get_run_demo fresh 0 w).world.env.1
      ≡ (lit "localhost:9000", lit "/bar", sent_headers unreachable 0) ∷ [])
    × (get listed (sent_headers unreachable 0) (lit "pinpoint-traceid")
        ≡ first_hit listed (lit "pinpoint-traceid") context)
unfolding to_lower lit lower text_eq is_empty
handle_outgoing-Sent_example =
    handle_outgoing-Sent unreachable listed_keeps get_run_demo fresh 0
      (record { current = some 7; env = (0, []) }) (lit "pinpoint-traceid")
      (refl, (refl, (refl, tt))) (omega arith)
