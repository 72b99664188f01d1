-- ===== src/Curl/Served.antt =====
-- Whole requests to the cURL example.
use pinpoint_cpp_examples.Common.{
  ℕ, ◌≡◌, refl, ◌∙◌, Bool, true, false, Option, none, some, List, [], ◌∷◌, ◌++◌, c_string, arith,
  Text, take, lit, flatten,
}
use pinpoint_cpp_examples.Trace.Program.{World, returned, ◌>>=◌}
use pinpoint_cpp_examples.Trace.Protocol.{closed, open_span, run, run-append}
use pinpoint_cpp_examples.Trace.Goes.{Gives-map, Goes, continue-Goes, scoped-Goes, run-new_span}
use pinpoint_cpp_examples.Http.{Request, Response, set_content}
use pinpoint_cpp_examples.Curl.Headers.{set}
use pinpoint_cpp_examples.Curl.Received.{pieces, received_lem}
use pinpoint_cpp_examples.Curl.Request.{
  Curl, Written, free_all, free_list, hold_list, append_all, send, fetch, finish, target, Transfer,
  written_headers, report, transfer, perform_curl_request, respond, handle_run_request,
}

-- No handle, no transfer: the result is success with an empty body. Else the transfer's error decides.
abbrev pub Fetched : Bool → Option Text → Text → Bool × Text → Type 0
Fetched false error body x = x ≡ (true, [])
Fetched true none body x = x ≡ (true, body)
Fetched true (some message) body x = x ≡ (false, body)

-- The bytes that a transfer brought.
abbrev pub body_of : Transfer → Text
body_of t = flatten (pieces t.chunks)

module _ (curl : Curl) (s : ℕ) where
  report_lem :
      (headers : List Text) (error : Option Text) (code : ℕ) (body : Text) (w : World curl.Env)
      → Goes
          (open_span s 1)
          (open_span s 1)
          (Fetched true error body)
          (report curl 0 headers error code body 1 w)
  unfolding report free_all free_list run ◌>>=◌
  report_lem [] none code body w = (refl, refl)
  report_lem [] (some message) code body w = (refl, refl)
  report_lem (line ∷ headers) none code body w = (refl, refl)
  report_lem (line ∷ headers) (some message) code body w = (refl, refl)

  hold_list_lem :
      (m : Bool) (headers : List Text) (w : World curl.Env)
      → let r = hold_list curl m headers 1 w in
        (run (open_span s 1) r.log ≡ some (open_span s 1)) × (r.out ≡ returned tt) × (r.world ≡ w)
  unfolding hold_list run ◌>>=◌
  hold_list_lem true [] w = (refl, refl, refl)
  hold_list_lem true (line ∷ headers) w = (refl, refl, refl)
  hold_list_lem false headers w = (refl, refl, refl)

  append_all_lem :
      (ws : List Written) (headers : List Text) (w : World curl.Env)
      → let r = append_all curl ws headers 1 w in
        (run (open_span s 1) r.log ≡ some (open_span s 1)) × (r.out ≡ returned tt) × (r.world ≡ w)
  unfolding append_all run ◌>>=◌
  append_all_lem [] headers w = (refl, refl, refl)
  append_all_lem (x ∷ ws) headers w =
      let (went, out, same) = hold_list_lem x.has_memory headers w in
      let (goes, ends, keeps) = append_all_lem ws (set x.has_memory x.key x.value headers) w in
      rw (out, same)
        (
          run-append (open_span s 1) (open_span s 1) (hold_list curl x.has_memory headers 1 w).log _
                went
              ∙ goes,
          ends,
          keeps,
        )

  -- The transfer that follows from this environment.
  abbrev pub fetched : Text → curl.Env → Transfer
  fetched url env =
      (curl.perform (c_string url) (written_headers (curl.injected env).0 [])
        (curl.injected env).1).0

  send_lem :
      (url : Text) (headers : List Text) (w : World curl.Env)
      → let t = (curl.perform (c_string url) headers w.env).0 in
        Goes
          (open_span s 1)
          (open_span s 1)
          (Fetched true t.error (body_of t))
          (send curl url 0 headers 1 w)
  unfolding send run ◌>>=◌
  send_lem url headers w =
      let t = (curl.perform (c_string url) headers w.env).0 in
      let whole = curl.perform_whole (c_string url) headers w.env in
      rw (received_lem t.chunks [] whole) (report_lem headers t.error t.response_code (body_of t) _)

  transfer_lem :
      (url : Text) (b : Bool) (w : World curl.Env)
      → Goes
          (open_span s 1)
          (open_span s 1)
          (Fetched b (fetched url w.env).error (body_of (fetched url w.env)))
          (transfer curl url 0 b 1 w)
  unfolding transfer run ◌>>=◌
  transfer_lem url true w =
      let (written, env) = curl.injected w.env in
      let (went, out, same) = append_all_lem written [] (record w { env = env }) in
      let sent = send_lem url (written_headers written []) (record w { env = env }) in
      rw (out, same)
        (
          run-append (open_span s 1) (open_span s 1)
                (append_all curl written [] 1 (record w { env = env })).log _ went
              ∙ sent.0,
          sent.1,
        )
  transfer_lem url false w = (refl, refl)

  -- What becomes of a request for `url` in this environment.
  abbrev FetchedFrom : Text → curl.Env → Bool × Text → Type 0
  FetchedFrom url env =
      let t = fetched url (curl.init env).1 in Fetched (curl.init env).0 t.error (body_of t)

  perform_lem :
      (url : Text) (w : World curl.Env)
      → Goes
          (open_span s 0)
          (open_span s 0)
          (FetchedFrom url w.env)
          (perform_curl_request curl url (some s) 0 w)
  unfolding perform_curl_request ◌>>=◌
  perform_lem url w =
      scoped-Goes s 0 (FetchedFrom url w.env) _ _ (fetch curl url) w
        (transfer_lem url (curl.init w.env).0 (record w { env = (curl.init w.env).1 }))

abbrev pub response_of : Response → Bool × Text → Response
response_of res (true, body) =
    set_content (lit "cURL request successful\nResponse body preview: " ++ take 200 body)
      (lit "text/plain") (record res { status = 200 })
response_of res (false, body) =
    set_content (lit "cURL request failed") (lit "text/plain") (record res { status = 500 })

-- The response to a request after this fetch.
abbrev pub Responded : Bool → Transfer → Response → Response → Type 0
Responded ready t res done =
    (x : Bool × Text) × Fetched ready t.error (body_of t) x × (done ≡ response_of res x)

module _ (curl : Curl) (target_url : Text) (s : ℕ) (req : Request) (res : Response) where
  finish_lem :
      (x : Bool × Text) (w : World curl.Env)
      → Goes (open_span s 0) closed (λ done. done ≡ response_of res x) (finish curl s req res x 0 w)
  unfolding finish respond run ◌>>=◌
  finish_lem (true, body) w = (ground arith, refl)
  finish_lem (false, body) w = (ground arith, refl)

  -- Every request to the cURL example gets a response, and its span ends with no event open. The response
  -- has status 200 and the first 200 bytes of what its pieces make up if the transfer of the URL, up to its
  -- first NUL, succeeds, and 500 if it fails; if
  -- curl has no handle it has status 200 too, with no body.
  pub curl_request-Ended :
      (w : World curl.Env)
      → let env = (curl.init w.env).1 in
        Goes closed closed
          (Responded (curl.init w.env).0 (fetched curl s (target curl target_url req) env) res)
          (handle_run_request curl target_url s req res 0 w)
  unfolding handle_run_request ◌>>=◌
  curl_request-Ended w =
      let url = target curl target_url req in
      let r = perform_curl_request curl url (some s) 0 w in
      let (went, gives) = perform_lem curl s url w in
      let done_of : Response → Type 0 =
        Responded (curl.init w.env).0 (fetched curl s url (curl.init w.env).1) res in
      let whole =
        continue-Goes (open_span s 0) (open_span s 0) closed _ done_of r.out r.log r.world
          (λ x. finish curl s req res x 0) went gives
          λ x fetch.
            let (ended, e) = finish_lem x r.world in
            (
              ended,
              Gives-map (λ done. done ≡ response_of res x) done_of _ (λ done same. (x, fetch, same))
                  e,
            ) in
      (run-new_span s _ _ _ _ _ ∙ whole.0, whole.1)
