-- ===== src/Curl/Sent.antt =====
-- What a request to the cURL example hands to libcurl, seen by a libcurl that keeps a record of it.
use pinpoint_cpp_examples.Common.{
  ℕ, ◌≡◌, refl, sym, ap, ◌∙◌, append-nil, Bool, true, false, Option, none, some, List, [], ◌∷◌,
  ◌++◌, Text, All, c_string, if◌then◌else◌,
}
use pinpoint_cpp_examples.Trace.Program.{Program, World}
use pinpoint_cpp_examples.Trace.Shows.{none_of, seen}
use pinpoint_cpp_examples.Trace.Meets.{
  Meets, Meets-quiet, Meets-ask, Meets-pure, Meets-bind, Meets-scoped, Returns-returned,
}
use pinpoint_cpp_examples.Http.{Request, Response}
use pinpoint_cpp_examples.Curl.Headers.{set, get}
use pinpoint_cpp_examples.Curl.Lookup.{IsPlain, first_named, get-written_headers}
use pinpoint_cpp_examples.Curl.Received.{received}
use pinpoint_cpp_examples.Curl.Request.{
  Curl, Written, hold_list, append_all, free_list, send, written_headers, transfer, report,
  free_all, fetch, perform_curl_request, finish, respond, target, handle_run_request,
}

-- A transfer: the URL and the lines of its headers.
abbrev pub Asked : Type 0
Asked = Text × List Text

abbrev pub recording : Curl → Curl
recording curl = record {
  Env = curl.Env × List Asked;
  init = λ env. ((curl.init env.0).0, ((curl.init env.0).1, env.1));
  injected = λ env. ((curl.injected env.0).0, ((curl.injected env.0).1, env.1));
  perform = λ url headers env.
      let (t, next) = curl.perform url headers env.0 in (t, (next, env.1 ++ (url, headers) ∷ []));
  perform_whole = λ url headers env. curl.perform_whole url headers env.0;
}

module _ (curl : Curl) where
  abbrev Recorded : Type 0
  Recorded = curl.Env × List Asked

  -- The transfers asked for are these.
  abbrev Handed : {A : Type 0} → List Asked → A → Recorded → Type 0
  Handed sent a env = env.1 ≡ sent

  abbrev Keeps : {A : Type 0} → List Asked → Program Recorded A → Type 0
  Keeps sent m = Meets none_of (Handed sent tt) m [] (Handed sent)

  free_list-Keeps :
      (headers : List Text) (sent : List Asked) → Keeps sent (free_list (recording curl) headers)
  unfolding free_list seen
  free_list-Keeps [] sent = Meets-pure _ (λ env h. h)
  free_list-Keeps (line ∷ headers) sent = Meets-quiet _ refl

  hold_list-Keeps :
      (m : Bool) (headers : List Text) (P : Recorded → Type 0)
      → Meets none_of P (hold_list (recording curl) m headers) [] (λ u. P)
  unfolding hold_list seen
  hold_list-Keeps true [] P = Meets-quiet _ refl
  hold_list-Keeps true (line ∷ headers) P = Meets-pure _ (λ env h. h)
  hold_list-Keeps false headers P = Meets-pure _ (λ env h. h)

  append_all-Keeps :
      (ws : List Written) (headers : List Text) (P : Recorded → Type 0)
      → Meets none_of P (append_all (recording curl) ws headers) [] (λ u. P)
  unfolding append_all
  append_all-Keeps [] headers P = Meets-pure _ (λ env h. h)
  append_all-Keeps (w ∷ ws) headers P =
      Meets-bind {xs = []} (hold_list-Keeps w.has_memory headers P)
        λ u. append_all-Keeps ws (set w.has_memory w.key w.value headers) P

  report-Keeps :
      (e : ℕ) (headers : List Text) (error : Option Text) (code : ℕ) (body : Text)
      (sent : List Asked)
      → Keeps sent (report (recording curl) e headers error code body)
  unfolding report free_all seen
  report-Keeps e headers none code body sent = Meets-bind (Meets-quiet _ refl) λ u.
      Meets-bind (Meets-bind (Meets-quiet _ refl) (λ u. free_list-Keeps headers sent))
        (λ u. Meets-pure _ (λ env h. h))
  report-Keeps e headers (some m) code body sent = Meets-bind (Meets-quiet _ refl) λ u.
      Meets-bind (Meets-bind (Meets-quiet _ refl) (λ u. free_list-Keeps headers sent))
        (λ u. Meets-pure _ (λ env h. h))

  -- The transfers of a request for `url`, if there is a handle and the agent writes its headers in `env`.
  abbrev pub transfers : Bool → Text → curl.Env → List Asked
  transfers true url env = (c_string url, written_headers (curl.injected env).0 []) ∷ []
  transfers false url env = []

  transfers_lem :
      (ready : Bool) (url : Text) (env : curl.Env)
      → transfers ready url env
        ≡ (if ready then (c_string url, written_headers (curl.injected env).0 []) ∷ [] else [])
  transfers_lem true url env = refl
  transfers_lem false url env = refl

  transfer-Meets :
      (url : Text) (e : ℕ) (ready : Bool) (before : Recorded)
      → Meets none_of
          (λ env. env ≡ before)
          (transfer (recording curl) url e ready)
          []
          (Handed (before.1 ++ transfers ready url before.0))
  unfolding transfer send seen
  transfer-Meets url e false before =
      Meets-pure _ (λ env h. ap (λ x. x.1) h ∙ sym (append-nil before.1))
  transfer-Meets url e true before = Meets-bind (Meets-quiet _ refl) λ u.
      Meets-bind (Meets-quiet _ refl) λ u.
        Meets-bind
          (Meets-ask _
            {Q = λ written env. (written ≡ (curl.injected before.0).0) × (env.1 ≡ before.1)}
            (λ env h. (ap (λ x. (curl.injected x.0).0) h, ap (λ x. x.1) h)))
          λ written. Meets-bind {xs = []} (append_all-Keeps written [] _) λ u.
            Meets-bind (Meets-quiet _ refl) λ u.
              Meets-bind
                (Meets-ask _ {Q = λ t. Handed (before.1 ++ transfers true url before.0) t}
                  (λ env h. rw (h.0, h.1) refl))
                λ t.
                  report-Keeps e (written_headers written []) t.error t.response_code
                    (received t.chunks []) _

  fetch-Meets :
      (url : Text) (e : ℕ) (before : Recorded)
      → let (ready, after) = curl.init before.0 in
        Meets none_of
          (λ env. env ≡ before)
          (fetch (recording curl) url e)
          []
          (Handed (before.1 ++ transfers ready url after))
  unfolding fetch
  fetch-Meets url e before =
      let (ready, after) = curl.init before.0 in
      Meets-bind
        (Meets-ask _ {Q = λ b env. (b ≡ ready) × (env ≡ (after, before.1))}
          (λ env h. (ap (λ x. (curl.init x.0).0) h, ap (λ x. ((curl.init x.0).1, x.1)) h)))
        λ b. record {
          at = λ d w i. rw i.0 ((transfer-Meets url e ready (after, before.1)).at d w i.1);
        }

  finish-Keeps :
      (span : ℕ) (req : Request) (res : Response) (result : Bool × Text) (sent : List Asked)
      → Keeps sent (finish (recording curl) span req res result)
  unfolding finish respond seen
  finish-Keeps span req res (true, body) sent =
      Meets-bind (Meets-pure {I = Handed sent tt} _ {Q = Handed sent} (λ env h. h)) λ done.
        Meets-bind (Meets-quiet _ refl)
          λ u. Meets-bind (Meets-quiet _ refl) (λ u. Meets-pure _ (λ env h. h))
  finish-Keeps span req res (false, body) sent =
      Meets-bind
        (Meets-bind (Meets-quiet _ refl)
          λ u. Meets-pure {I = Handed sent tt} _ {Q = Handed sent} (λ env h. h))
        λ done.
          Meets-bind (Meets-quiet _ refl)
            λ u. Meets-bind (Meets-quiet _ refl) (λ u. Meets-pure _ (λ env h. h))

  whole :
      (target_url : Text) (span : ℕ) (req : Request) (res : Response) (before : Recorded)
      → let (ready, after) = curl.init before.0 in
        Meets none_of
          (λ env. env ≡ before)
          (handle_run_request (recording curl) target_url span req res)
          []
          (Handed (before.1 ++ transfers ready (target curl target_url req) after))
  unfolding handle_run_request perform_curl_request target seen
  whole target_url span req res before = Meets-bind (Meets-quiet _ refl) λ u.
      Meets-bind (Meets-quiet _ refl) λ u.
        Meets-bind (Meets-scoped _ _ _ _ (λ e. fetch-Meets _ e before))
          λ result. finish-Keeps span req res result _

  -- A request to the cURL example asks libcurl for exactly one transfer if there is a handle, and for none
  -- if not. The transfer is of the URL asked for, up to its first NUL, and has headers in which a reader finds,
  -- under each name in any case, the first header of that name that the agent has written, and nothing under
  -- other names: if curl has memory for the lines, no name has a colon or a NUL, and no value a NUL or a
  -- space in front.
  pub handle_run_request-Sent :
      (target_url : Text) (span : ℕ) (req : Request) (res : Response) (w : World Recorded)
      → All IsPlain (curl.injected (curl.init w.env.0).1).0
      → let (ready, after) = curl.init w.env.0 in
        let url = target curl target_url req in
        let written = (curl.injected after).0 in
        let r = handle_run_request (recording curl) target_url span req res 0 w in
        (r.world.env.1
          ≡ w.env.1 ++ (if ready then (c_string url, written_headers written []) ∷ [] else []))
        × ((asked : Text) → get asked (written_headers written []) ≡ first_named asked written)
  handle_run_request-Sent target_url span req res w plain =
      let (ready, after) = curl.init w.env.0 in
      let sent = w.env.1 ++ transfers ready (target curl target_url req) after in
      let (done, returned, same) =
        Returns-returned (Handed sent) _ _ ((whole target_url span req res w.env).at 0 w refl).0 in
      (
        same ∙ ap (λ xs. w.env.1 ++ xs) (transfers_lem ready _ after),
        λ asked. get-written_headers asked _ plain,
      )
