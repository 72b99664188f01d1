-- ===== src/Civetweb/Served.antt =====
-- What the CivetWeb handlers answer, and how they trace it.
use pinpoint_cpp_examples.Common.{
  ℕ, ◌≡◌, refl, Bool, true, false, Option, none, some, List, [], ◌∷◌, ◌++◌, Text, lit, length,
  if◌then◌else◌,
}
use pinpoint_cpp_examples.Common.Decimal.{to_string}
use pinpoint_cpp_examples.Common.Int.{int_to_string}
use pinpoint_cpp_examples.Common.Format.{printf}
use pinpoint_cpp_examples.Capi.{
  PtCall, Phase, no_span, in_event, run, on_span, trace_http_server_response,
}
use pinpoint_cpp_examples.Civetweb.Headers.{Headers, static_header_for_each}
use pinpoint_cpp_examples.Civetweb.Handlers.{
  RequestInfo, Act, agent, no_span_made, printed, json_response, failure_body, health_response,
  html, read_back, begin, finish, health_printed, handle_users, handle_health, handle_root,
}

-- The agent's calls before the only message, the message, and those behind it.
abbrev cons_before :
    PtCall → Option (List PtCall × Text × List PtCall) → Option (List PtCall × Text × List PtCall)
cons_before c none = none
cons_before c (some (before, message, behind)) = some (c ∷ before, message, behind)

abbrev calls_only : List Act → Option (List PtCall)
calls_only [] = some []
calls_only (agent c ∷ acts) = elim (calls_only acts) [ none ↦ none | some cs ↦ some (c ∷ cs) ]
calls_only (no_span_made m u ∷ acts) = calls_only acts
calls_only (printed message ∷ acts) = none

abbrev around : List Act → Option (List PtCall × Text × List PtCall)
around [] = none
around (agent c ∷ acts) = cons_before c (around acts)
around (no_span_made m u ∷ acts) = around acts
around (printed message ∷ acts) = elim (calls_only acts) [
  | none ↦ none
  | some cs ↦ some ([], message, cs)
]

-- An HTTP message as RFC 9112 has it.
abbrev pub fields : Headers → Text
fields [] = []
fields ((name, value) ∷ rest) = name ++ (lit ": " ++ (value ++ (lit "\r\n" ++ fields rest)))

abbrev pub http_message : ℕ → Text → Headers → Text → Text
http_message status reason headers body =
    lit "HTTP/1.1 "
    ++ (to_string status
        ++ (lit " " ++ (reason ++ (lit "\r\n" ++ (fields headers ++ (lit "\r\n" ++ body))))))

abbrev pub working : Bool → Phase
working true = in_event
working false = no_span

-- The response headers that the span is told.
abbrev recorded : List PtCall → List Headers
recorded [] = []
recorded (on_span (trace_http_server_response url method status headers) ∷ cs) =
    headers ∷ recorded cs
recorded (_ ∷ cs) = recorded cs

-- A handler's whole work: it writes this one message and returns its status, under an event of its span
-- where it has one; that span is ended and destroyed, with its event, and is told these headers.
pub record Serves (traced : Bool) (status : ℕ) (message : Text) (told : Headers) (r : List Act × ℕ)
    : Type 0 where
  pub before : List PtCall
  pub behind : List PtCall
  pub one_message : around r.0 ≡ some (before, message, behind)
  pub under_event : run no_span before ≡ some (working traced)
  pub left_none : run (working traced) behind ≡ some no_span
  pub is_told : recorded behind ≡ (if traced then told ∷ [] else [])
  pub same_status : r.1 ≡ status

abbrev pub length_field : Text → Text × Text
length_field body = (lit "Content-Length", to_string (length body))

abbrev pub json_field : Text × Text
json_field = (lit "Content-Type", lit "application/json")

abbrev pub powered_field : Text × Text
powered_field = (lit "X-Powered-By", lit "Pinpoint-CivetWeb")

-- What `/api/users` answers.
abbrev pub users_message : Bool → Text
users_message true =
    http_message 200 (lit "OK") (json_field ∷ length_field json_response ∷ powered_field ∷ [])
      json_response
users_message false =
    http_message 500 (lit "Internal Server Error")
      ((lit "Content-Type", lit "text/plain") ∷ length_field failure_body ∷ []) failure_body

abbrev pub health_message : Text
health_message =
    http_message 200 (lit "OK") (json_field ∷ length_field health_response ∷ []) health_response

module _ (info : RequestInfo) where
  -- `/api/users` writes one HTTP message: the users with status 200 where the agent makes a span, and a plain
  -- text with status 500 where it makes none. The message's Content-Length is its body's length. With a span
  -- it is written under the handler's event, the span is told the headers that were written next to the
  -- length, and event and span are ended and destroyed in order; without one no call of the agent follows.
  pub handle_users-Serves :
      (traced : Bool)
      → Serves traced
          (if traced then 200 else 500)
          (users_message traced)
          (json_field ∷ powered_field ∷ [])
          (handle_users traced info)
  unfolding handle_users begin finish read_back static_header_for_each run printf lit json_response
      to_string int_to_string
  handle_users-Serves true = record {
    before = _;
    behind = _;
    one_message = refl;
    under_event = refl;
    left_none = refl;
    is_told = refl;
    same_status = refl;
  }
  handle_users-Serves false = record {
    before = [];
    behind = [];
    one_message = refl;
    under_event = refl;
    left_none = refl;
    is_told = refl;
    same_status = refl;
  }

  -- `/api/health` writes the same message with status 200 and the length of its body whether or not the agent
  -- makes a span. With a span it does so under the handler's event, tells the span the header next to the
  -- length, and ends and destroys event and span in order.
  pub handle_health-Serves :
      (traced : Bool)
      → Serves traced 200 health_message (json_field ∷ []) (handle_health traced info)
  unfolding handle_health health_printed begin finish read_back static_header_for_each run printf
      lit to_string int_to_string
  handle_health-Serves true = record {
    before = _;
    behind = _;
    one_message = refl;
    under_event = refl;
    left_none = refl;
    is_told = refl;
    same_status = refl;
  }
  handle_health-Serves false = record {
    before = [];
    behind = [];
    one_message = refl;
    under_event = refl;
    left_none = refl;
    is_told = refl;
    same_status = refl;
  }

-- `/` is not traced.
handle_root-Serves :
    Serves false 200
      (http_message 200
        (lit "OK")
        ((lit "Content-Type", lit "text/html") ∷ length_field html ∷ [])
        html)
      []
      handle_root
unfolding handle_root html printf lit to_string int_to_string run
handle_root-Serves = record {
  before = [];
  behind = [];
  one_message = refl;
  under_event = refl;
  left_none = refl;
  is_told = refl;
  same_status = refl;
}
