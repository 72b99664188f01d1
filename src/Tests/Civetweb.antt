-- ===== src/Tests/Civetweb.antt =====
-- The CivetWeb example.
use pinpoint_cpp_examples.Common.{
  ℕ, ◌≡◌, ◌+◌, ◌==◌, Bool, true, false, some, [], ◌∷◌, Text, lit, if◌then◌else◌,
}
use pinpoint_cpp_examples.Common.Int.{pos}
use pinpoint_cpp_examples.Common.Environ.{Environ, getenv, or_default, default_of}
use pinpoint_cpp_examples.Civetweb.Headers.{
  Headers, first_value, array_of, static_header_get, static_header_for_each,
  civetweb_header_for_each, static_array-Reads,
}
use pinpoint_cpp_examples.Civetweb.Handlers.{RequestInfo, handle_users, handle_health}
use pinpoint_cpp_examples.Civetweb.Served.{
  Serves, users_message, health_message, json_field, powered_field, handle_users-Serves,
  handle_health-Serves,
}
use pinpoint_cpp_examples.Civetweb.Main.{
  Answers, main, life, booting, standing, environment_of, defaults, civetweb_main-life,
}

abbrev two_headers : Headers
two_headers = json_field ∷ powered_field ∷ []

-- Stops at the second header.
abbrev stops_at_two : Text → Text → ℕ → Bool × ℕ
stops_at_two name value n = (n == 1, n + 1)

static_array-Reads_example :
    (static_header_get (array_of two_headers []) (lit "X-Powered-By")
      ≡ some (first_value (lit "X-Powered-By") two_headers))
    × (static_header_for_each stops_at_two (array_of two_headers []) 0
        ≡ some (civetweb_header_for_each stops_at_two (some two_headers) 0))
static_array-Reads_example = static_array-Reads stops_at_two (lit "X-Powered-By") two_headers [] 0

abbrev a_request : RequestInfo
a_request = record {
  request_method = lit "GET";
  request_uri = lit "/api/users";
  remote_addr = lit "127.0.0.1";
  remote_port = pos 54321;
}

handle_users-Serves_example :
    Serves false
      (if false then 200 else 500)
      (users_message false)
      (json_field ∷ powered_field ∷ [])
      (handle_users false a_request)
handle_users-Serves_example = handle_users-Serves a_request false

handle_health-Serves_example :
    Serves true 200 health_message (json_field ∷ []) (handle_health true a_request)
handle_health-Serves_example = handle_health-Serves a_request true

abbrev named : Environ
named = (lit "PINPOINT_CPP_APPLICATION_NAME", lit "mine") ∷ []

abbrev willing : Answers
willing = record { starts = false; has_agent = true; has_context = true }

civetweb_main-life_example :
    let asked = lit "PINPOINT_CPP_APPLICATION_NAME" in
    let r = main named willing (true ∷ false ∷ []) in
    (life booting r.0 ≡ some (standing true r.1))
    × (getenv asked (environment_of r.0)
        ≡ or_default (getenv asked named) (default_of asked defaults))
civetweb_main-life_example =
    civetweb_main-life named willing (true ∷ false ∷ []) (lit "PINPOINT_CPP_APPLICATION_NAME")
