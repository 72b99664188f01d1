-- ===== src/Cpptrace/Served.antt =====
-- Whole requests to the cpptrace example.
use pinpoint_cpp_examples.Common.{
  ℕ, suc, ◌≡◌, refl, ap, ◌∙◌, Option, none, some, List, [], ◌∷◌, ◌++◌, Text, lit, inl, inr,
}
use pinpoint_cpp_examples.Trace.{
  EventOp, client_request_headers, client_response_headers, default_type, inject_context,
  set_error_with_stack, trace_http_client_request, trace_http_client_response,
}
use pinpoint_cpp_examples.Trace.Program.{
  Exception, Answer, value, throws, Answer-cases, Run, Program, World, returned, thrown, scoped,
  ◌>>=◌,
}
use pinpoint_cpp_examples.Trace.Protocol.{closed, open_span, run}
use pinpoint_cpp_examples.Trace.Balanced.{IsBalanced, Anything, balanced}
use pinpoint_cpp_examples.Trace.Shows.{
  Shows, Shows-pure, Shows-bind, Shows-on_event, seen, seen-scope, bind_step, bind_thrown,
  bind_seen,
}
use pinpoint_cpp_examples.Http.{Request, Response, set_content}
use pinpoint_cpp_examples.Http.Wrapped.{Ended, request-Ended, request-Left}
use pinpoint_cpp_examples.Cpptrace.Headers.{set_all}
use pinpoint_cpp_examples.Cpptrace.Handlers.{
  Httplib, Reply, Result, host_of, path_of, target_url, err_msg, users_body, outgoing_body,
  own_headers, told, call_url, answer, handle_users, handle_outgoing, serve_users, serve_outgoing,
}

-- The view that picks every method.
abbrev pub every : EventOp → Option EventOp
every op = some op

abbrev pub reply_ops : Option Reply → List EventOp
reply_ops none = []
reply_ops (some reply) = trace_http_client_response reply.status client_response_headers ∷ []

abbrev pub error_ops : Request → Option Text → List EventOp
error_ops req none = []
error_ops req (some error) =
    set_error_with_stack (lit "HandleOutgoingError") (err_msg (host_of req) error) ∷ []

-- What every request tells its span events before it makes a client.
abbrev pub request_ops : Request → List EventOp
request_ops req =
    trace_http_client_request (host_of req) (target_url req) client_request_headers
    ∷ inject_context client_request_headers
    ∷ []

-- What a request with this result tells its span events.
abbrev pub outgoing_ops : Request → Result → List EventOp
outgoing_ops req r = (request_ops req ++ reply_ops r.response) ++ error_ops req r.error

abbrev pub answered : Request → Response → Result → Response
answered req res r =
    set_content (outgoing_body (target_url req) r) (lit "application/json")
      (record res { status = 200 })

module _ (http : Httplib) where
  -- What `Client(host)` does in this environment.
  abbrev pub client_of : Request → http.Env → Answer (Unit {0}) × http.Env
  client_of req env = http.client (host_of req) (http.context env).1

  -- The result of the call in this environment.
  abbrev pub result_of : Request → http.Env → Result
  result_of req env =
      (http.get_url (host_of req) (path_of req)
        (set_all http.map (http.context env).0 (own_headers http)) (client_of req env).1).0

  -- How a request leaves the agent, its span and the client, by what `Client(host)` did.
  abbrev pub Concluded :
      ℕ → Request → Response → Result → Answer (Unit {0}) → Run http.Env Response → Type 0
  Concluded s req res result (value u) r =
      Ended r
      × (r.out ≡ returned (answered req res result))
      × (seen every r.log ≡ outgoing_ops req result)
  Concluded s req res result (throws x) r =
      (run closed r.log ≡ some (open_span s 0))
      × (r.world.current ≡ some s)
      × (r.out ≡ thrown x)
      × (seen every r.log ≡ request_ops req)

  told-IsBalanced :
      {s d : ℕ} (r : Result) (o : Option Reply) → IsBalanced Anything s (suc d) (told http d r o)
  unfolding told
  told-IsBalanced r none = search balanced
  told-IsBalanced r (some reply) = search balanced depth 12

  answer-IsBalanced :
      {s d : ℕ} (req : Request) (res : Response) (r : Result) (o : Option Text)
      → IsBalanced Anything s (suc d) (answer http d req res r o)
  unfolding answer
  answer-IsBalanced req res r none = search balanced
  answer-IsBalanced req res r (some error) = search balanced depth 12

  outgoing-IsBalanced :
      (s : ℕ) (req : Request) (res : Response)
      → IsBalanced Anything s 0 (handle_outgoing http req res)
  unfolding handle_outgoing call_url
  outgoing-IsBalanced s req res = search (balanced, told-IsBalanced, answer-IsBalanced) depth 24

  users-IsBalanced :
      (s : ℕ) (req : Request) (res : Response) → IsBalanced Anything s 0 (handle_users http req res)
  unfolding handle_users
  users-IsBalanced s req res = search balanced depth 20

  told_lem :
      (e : ℕ) (r : Result) (o : Option Reply) (d : ℕ) (w : World http.Env)
      → ((told http e r o d w).out ≡ returned r)
        × (seen every (told http e r o d w).log ≡ reply_ops o)
  unfolding told ◌>>=◌ seen
  told_lem e r none d w = (refl, refl)
  told_lem e r (some reply) d w = (refl, refl)

  call_url_lem :
      (req : Request) (e d : ℕ) (w : World http.Env)
      → (client_of req w.env).0 ≡ value tt
      → let r = result_of req w.env in
        let t = call_url http (host_of req) (path_of req) (target_url req) e d w in
        (t.out ≡ returned r) × (seen every t.log ≡ request_ops req ++ reply_ops r.response)
  unfolding call_url ◌>>=◌ seen
  call_url_lem req e d w made =
      let r = result_of req w.env in
      let t = told_lem e r r.response d _ in rw made (t.0, ap (λ xs. request_ops req ++ xs) t.1)

  call_url-thrown :
      (req : Request) (e d : ℕ) (w : World http.Env) (x : Exception)
      → (client_of req w.env).0 ≡ throws x
      → let t = call_url http (host_of req) (path_of req) (target_url req) e d w in
        (t.out ≡ thrown x) × (seen every t.log ≡ request_ops req)
  unfolding call_url ◌>>=◌ seen
  call_url-thrown req e d w x made = rw made (refl, refl)

  answer-Shows :
      (e : ℕ) (req : Request) (res : Response) (r : Result) (o : Option Text)
      → Shows every (answer http e req res r o) (error_ops req o)
  unfolding answer
  answer-Shows e req res r none = Shows-pure _
  answer-Shows e req res r (some error) = Shows-bind (Shows-on_event e _) λ _. Shows-pure _

  answer-out :
      (e : ℕ) (req : Request) (res : Response) (r : Result) (o : Option Text) (d : ℕ)
      (w : World http.Env)
      → (answer http e req res r o d w).out ≡ returned (answered req res r)
  unfolding answer ◌>>=◌
  answer-out e req res r none d w = refl
  answer-out e req res r (some error) d w = refl

  outgoing-thrown :
      (req : Request) (res : Response) (d : ℕ) (w : World http.Env) (x : Exception)
      → (client_of req w.env).0 ≡ throws x
      → let t = handle_outgoing http req res d w in
        (t.out ≡ thrown x) × (seen every t.log ≡ request_ops req)
  unfolding handle_outgoing ◌>>=◌ seen
  outgoing-thrown req res d w x made =
      let body = call_url http (host_of req) (path_of req) (target_url req) in
      let m = scoped w.current (lit "httplib::Client.Get") default_type body in
      let f : Result → Program http.Env Response = λ r. answer http d req res r r.error in
      let called = call_url-thrown req (suc d) (suc (suc d)) w x made in
      let inner = body (suc d) (suc (suc d)) w in
      let stops = bind_thrown m f (suc d) w x called.0 in
      let t = (m >>= f) (suc d) w in
      (
        stops.0,
        seen-scope every t.log t.out d
            ∙ ap (seen every) stops.1
            ∙ seen-scope every inner.log inner.out (suc d)
            ∙ called.1,
      )

  outgoing-out :
      (req : Request) (res : Response) (d : ℕ) (w : World http.Env)
      → (client_of req w.env).0 ≡ value tt
      → let r = result_of req w.env in
        let t = handle_outgoing http req res d w in
        (t.out ≡ returned (answered req res r)) × (seen every t.log ≡ outgoing_ops req r)
  unfolding handle_outgoing ◌>>=◌ seen
  outgoing-out req res d w made =
      let r = result_of req w.env in
      let body = call_url http (host_of req) (path_of req) (target_url req) in
      let m = scoped w.current (lit "httplib::Client.Get") default_type body in
      let f : Result → Program http.Env Response = λ x. answer http d req res x x.error in
      let called = call_url_lem req (suc d) (suc (suc d)) w made in
      let inner = body (suc d) (suc (suc d)) w in
      let t = (m >>= f) (suc d) w in
      (
        (bind_step m f (suc d) w r called.0).0 ∙ answer-out d req res r r.error (suc d) _,
        seen-scope every t.log t.out d
            ∙ bind_seen every m f (suc d) w r _ _ called.0
                (seen-scope every inner.log inner.out (suc d) ∙ called.1)
                (answer-Shows d req res r r.error),
      )

  -- Every `/outgoing` request for a host that cpp-httplib makes a client for, whatever the call to that host
  -- gives, ends its span with no event open, clears the thread's span, and has status 200 and what the call
  -- gave in its body. Its events are told the request, to inject the context, then the response where there
  -- is one, and then the error where the call failed, which names the host. If the client's constructor
  -- throws, nothing catches the exception: it leaves the handler, both events are closed and have been told
  -- only the request and to inject the context, and the span is never ended and stays the thread's span.
  pub outgoing_request-Ended :
      (s : ℕ) (req : Request) (res : Response) (w : World http.Env)
      → Concluded s req res
          (result_of req w.env)
          (client_of req w.env).0
          (serve_outgoing http s req res 0 w)
  unfolding serve_outgoing
  outgoing_request-Ended s req res w = elim (Answer-cases (client_of req w.env).0) [
    | inl (u, made) ↦ rw made (
        request-Ended Anything _ s (handle_outgoing http) req res w every
          (answered req res (result_of req w.env)) (outgoing-IsBalanced s req res) tt
          (outgoing-out req res 0 (record w { current = some s }) made))
    | inr (x, made) ↦ rw made (
        request-Left Anything _ s (handle_outgoing http) req res w every x
          (outgoing-IsBalanced s req res) tt
          (outgoing-thrown req res 0 (record w { current = some s }) x made))
  ]

  abbrev pub greeted : Request → Response → Response
  greeted req res =
      set_content (users_body req) (lit "application/json") (record res { status = 200 })

  users-out :
      (req : Request) (res : Response) (w : World http.Env)
      → let t = handle_users http req res 0 w in
        (t.out ≡ returned (greeted req res)) × (seen every t.log ≡ [])
  unfolding handle_users ◌>>=◌ seen
  users-out req res w = (refl, refl)

  -- Every `/users` request ends its span with no event open and clears the thread's span; it has status 200
  -- and a body with the id of the path, the name, or `unknown` where none is given, and the address.
  pub users_request-Ended :
      (s : ℕ) (req : Request) (res : Response) (w : World http.Env)
      → let r = serve_users http s req res 0 w in
        Ended r × (r.out ≡ returned (greeted req res)) × (seen every r.log ≡ [])
  unfolding serve_users
  users_request-Ended s req res w =
      request-Ended Anything _ s (handle_users http) req res w every (greeted req res)
        (users-IsBalanced s req res) tt (users-out req res (record w { current = some s }))
