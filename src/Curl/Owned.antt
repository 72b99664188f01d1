-- ===== src/Curl/Owned.antt =====
-- Who owns curl's handle and its list of headers.
use pinpoint_cpp_examples.Common.{
  ℕ, zero, suc, ◌+◌, ◌≡◌, refl, subst, ap, ◌∙◌, Bool, true, false, Option, none, some, List, [],
  ◌∷◌, Text, arith, if◌then◌else◌,
}
use pinpoint_cpp_examples.Trace.{Call, Resource, curl_handle, curl_list, acquire, release}
use pinpoint_cpp_examples.Trace.Program.{Program, World, emit, ◌>>=◌}
use pinpoint_cpp_examples.Trace.Shows.{IsReturned}
use pinpoint_cpp_examples.Trace.Meets.{Returns-returned}
use pinpoint_cpp_examples.Trace.Drives.{
  Drives, Drives-pure, Drives-ask, Drives-bind, Drives-emit, Drives-scoped, Overlooks, drive,
}
use pinpoint_cpp_examples.Http.{Request, Response}
use pinpoint_cpp_examples.Curl.Headers.{set}
use pinpoint_cpp_examples.Curl.Request.{
  Curl, Written, written_headers, hold_list, append_all, free_list, free_all, report, send,
  transfer, fetch, perform_curl_request, respond, finish, handle_run_request,
}

-- The handles and the lists that are held.
abbrev pub Holding : Type 0
Holding = ℕ × ℕ

give_back : Resource → Holding → Option Holding
give_back curl_handle (suc handles, lists) = some (handles, lists)
give_back curl_handle (zero, lists) = none
give_back curl_list (handles, suc lists) = some (handles, lists)
give_back curl_list (handles, zero) = none
give_back _ held = some held

take_one : Resource → Holding → Option Holding
take_one curl_handle (handles, lists) = some (suc handles, lists)
take_one curl_list (handles, lists) = some (handles, suc lists)
take_one _ held = some held

-- `none` when one is given back that is not held.
unfoldable pub hold_step : Holding → Call → Option Holding
unfolding give_back take_one
hold_step held (acquire r) = take_one r held
hold_step held (release r) = give_back r held
hold_step held _ = some held

-- The lists that are lost while the agent writes these headers: one for each header that curl has no
-- memory for, if there is a list; `there` says whether there is one.
abbrev pub lists_lost : Bool → List Written → ℕ
lists_lost there [] = 0
lists_lost there (w ∷ ws) =
    if w.has_memory
    then lists_lost true ws
    else if there
    then suc (lists_lost false ws)
    else lists_lost false ws

is_there : List Text → Bool
is_there [] = false
is_there (line ∷ headers) = true

-- `lost` lists, and the one that is in use.
with_list : List Text → ℕ → ℕ
with_list [] lost = lost
with_list (line ∷ headers) lost = suc lost

overlooks : Overlooks hold_step
unfolding hold_step
overlooks = ((λ s span e name type. refl), λ s e. refl)

module _ {W : Type 0} where
  -- These are held, and of the environment this is known.
  abbrev Held : {A : Type 0} → ℕ → ℕ → (W → Type 0) → A → Holding → W → Type 0
  Held handles lists P a held env = (held ≡ (handles, lists)) × P env

  abbrev Takes : {A : Type 0} → ℕ → ℕ → ℕ → ℕ → (W → Type 0) → Program W A → Type 0
  Takes h l h' l' P m = Drives hold_step (Held h l P tt) m (Held h' l' P)

  calls :
      (c : Call) {h l h' l' : ℕ} {P : W → Type 0}
      → hold_step (h, l) c ≡ some (h', l')
      → Takes h l h' l' P (emit c)
  calls c {h'} {l'} e =
      Drives-emit c (λ s w i. ((h', l'), ap (λ x. hold_step x c) i.0 ∙ e, (refl, i.1)))

module _ (curl : Curl) where
  hold_list-Takes :
      (m : Bool) (key value : Text) (headers : List Text) (lost : ℕ) {P : curl.Env → Type 0}
      → Takes 1
          (with_list headers lost)
          1
          (with_list
            (set m key value headers)
            (if m then lost else if is_there headers then suc lost else lost))
          P
          (hold_list curl m headers)
  unfolding hold_list set with_list is_there hold_step
  hold_list-Takes true key value [] lost = calls _ refl
  hold_list-Takes true key value (line ∷ headers) lost = Drives-pure _ (λ s w i. i)
  hold_list-Takes false key value [] lost = Drives-pure _ (λ s w i. i)
  hold_list-Takes false key value (line ∷ headers) lost = Drives-pure _ (λ s w i. i)

  lost_lem :
      (m : Bool) (key value : Text) (headers : List Text) (lost : ℕ) (ws : List Written)
      → (if m then lost else if is_there headers then suc lost else lost)
          + lists_lost (is_there (set m key value headers)) ws
        ≡ lost
          + (if m
              then lists_lost true ws
              else if is_there headers
              then suc (lists_lost false ws)
              else lists_lost false ws)
  unfolding set is_there
  lost_lem true key value [] lost ws = refl
  lost_lem true key value (line ∷ headers) lost ws = refl
  lost_lem false key value [] lost ws = refl
  lost_lem false key value (line ∷ headers) lost ws = omega arith

  append_all-Takes :
      (ws : List Written) (headers : List Text) (lost : ℕ) {P : curl.Env → Type 0}
      → Takes 1
          (with_list headers lost)
          1
          (with_list (written_headers ws headers) (lost + lists_lost (is_there headers) ws))
          P
          (append_all curl ws headers)
  unfolding append_all written_headers
  append_all-Takes [] headers lost =
      let e : lost ≡ lost + 0 = omega arith in
      Drives-pure _ (λ s w i. (i.0 ∙ ap (λ n. (1, with_list headers n)) e, i.1))
  append_all-Takes (w ∷ ws) headers lost {P} =
      let more = set w.has_memory w.key w.value headers in
      subst
        (λ n.
          Takes 1 (with_list headers lost) 1 (with_list (written_headers ws more) n) P
            (append_all curl (w ∷ ws) headers))
        (lost_lem w.has_memory w.key w.value headers lost ws)
        (Drives-bind _ (hold_list-Takes w.has_memory w.key w.value headers lost)
          λ u. append_all-Takes ws more _)

  free_all-Takes :
      (headers : List Text) (lost : ℕ) {P : curl.Env → Type 0}
      → Takes 1 (with_list headers lost) 0 lost P (free_all curl headers)
  unfolding free_all free_list with_list hold_step
  free_all-Takes [] lost {P} =
      Drives-bind (Held 0 lost P) (calls _ refl) λ u. Drives-pure _ (λ s w i. i)
  free_all-Takes (line ∷ headers) lost {P} =
      Drives-bind (Held 0 (suc lost) P) (calls _ refl) λ u. calls _ refl

  report-Takes :
      (e : ℕ) (headers : List Text) (error : Option Text) (code : ℕ) (body : Text) (lost : ℕ)
      {P : curl.Env → Type 0}
      → Takes 1 (with_list headers lost) 0 lost P (report curl e headers error code body)
  unfolding report hold_step
  report-Takes e headers (some m) code body lost =
      Drives-bind _ (calls _ refl)
        λ u. Drives-bind _ (free_all-Takes headers lost) λ u. Drives-pure _ (λ s w i. i)
  report-Takes e headers none code body lost =
      Drives-bind _ (calls _ refl)
        λ u. Drives-bind _ (free_all-Takes headers lost) λ u. Drives-pure _ (λ s w i. i)

  send-Takes :
      (url : Text) (e : ℕ) (headers : List Text) (lost : ℕ)
      → Takes 1 (with_list headers lost) 0 lost (λ env. Unit {0}) (send curl url e headers)
  unfolding send hold_step
  send-Takes url e headers lost = Drives-bind _ (calls _ refl) λ u.
      Drives-bind (Held 1 (with_list headers lost) (λ env. Unit {0}))
        (Drives-ask _ (λ s w i. (i.0, tt)))
        λ t. report-Takes e headers t.error t.response_code _ lost

  sent-Takes :
      (url : Text) (e : ℕ) (ws : List Written)
      → Takes 1 0 0
          (lists_lost false ws)
          (λ env. Unit {0})
          (append_all curl ws [] >>= λ u. send curl url e (written_headers ws []))
  unfolding with_list is_there
  sent-Takes url e ws =
      let lost : 0 + lists_lost false ws ≡ lists_lost false ws = omega arith in
      let appended : Takes 1 0 1 (with_list (written_headers ws []) (0 + lists_lost false ws))
          (λ env. Unit {0}) (append_all curl ws []) =
        append_all-Takes ws [] 0 in
      Drives-bind
        (Held 1 (with_list (written_headers ws []) (lists_lost false ws)) (λ env. Unit {0}))
        (rw lost at appended) λ u. send-Takes url e (written_headers ws []) (lists_lost false ws)

  -- The lists that a transfer loses, if there is a handle, when the agent writes its headers in `env`.
  abbrev pub lost_by : Bool → curl.Env → ℕ
  lost_by ready env = if ready then lists_lost false (curl.injected env).0 else 0

  transfer-Takes :
      (url : Text) (e : ℕ) (ready : Bool) (before : curl.Env)
      → Drives hold_step
          (Held 0 0 (λ env. env ≡ before) tt)
          (transfer curl url e ready)
          (Held 0 (lost_by ready before) (λ env. Unit {0}))
  unfolding transfer hold_step with_list is_there
  transfer-Takes url e false before = Drives-pure _ (λ s w i. (i.0, tt))
  transfer-Takes url e true before =
      Drives-bind (Held 1 0 (λ env. env ≡ before)) (calls _ refl) λ u.
        Drives-bind (Held 1 0 (λ env. env ≡ before)) (calls _ refl) λ u.
          Drives-bind (λ written s env. (s ≡ (1, 0)) × (written ≡ (curl.injected before).0))
            (Drives-ask _ (λ s w i. (i.0, ap (λ x. (curl.injected x).0) i.1)))
            λ written. record {
              at = λ d w s i.
                  rw i.1 ((sent-Takes url e (curl.injected before).0).at d w s (i.0, tt));
            }

  fetch-Takes :
      (url : Text) (e : ℕ) (before : curl.Env)
      → let (ready, after) = curl.init before in
        Drives hold_step
          (Held 0 0 (λ env. env ≡ before) tt)
          (fetch curl url e)
          (Held 0 (lost_by ready after) (λ env. Unit {0}))
  unfolding fetch
  fetch-Takes url e before =
      let (ready, after) = curl.init before in
      Drives-bind (λ b s env. (s ≡ (0, 0)) × (b ≡ ready) × (env ≡ after))
        (Drives-ask _
          (λ s w i. (i.0, ap (λ x. (curl.init x).0) i.1, ap (λ x. (curl.init x).1) i.1)))
        λ b. record {
          at = λ d w s i. rw i.1 ((transfer-Takes url e ready after).at d w s (i.0, i.2));
        }

  finish-Takes :
      (s : ℕ) (req : Request) (res : Response) (x : Bool × Text) (lost : ℕ)
      → Takes 0 lost 0 lost (λ env. Unit {0}) (finish curl s req res x)
  unfolding finish respond hold_step
  finish-Takes s req res (true, body) lost =
      Drives-bind (Held 0 lost (λ env. Unit {0})) (Drives-pure _ (λ s w i. i)) λ done.
        Drives-bind _ (calls _ refl)
          λ u. Drives-bind _ (calls _ refl) λ u. Drives-pure _ (λ s w i. i)
  finish-Takes s req res (false, body) lost =
      Drives-bind (Held 0 lost (λ env. Unit {0}))
        (Drives-bind _ (calls _ refl) λ u. Drives-pure _ (λ s w i. i))
        λ done.
          Drives-bind _ (calls _ refl)
            λ u. Drives-bind _ (calls _ refl) λ u. Drives-pure _ (λ s w i. i)

  request-Takes :
      (url : Text) (s : ℕ) (req : Request) (res : Response) (before : curl.Env)
      → let (ready, after) = curl.init before in
        Drives hold_step
          (Held 0 0 (λ env. env ≡ before) tt)
          (handle_run_request curl url s req res)
          (Held 0 (lost_by ready after) (λ env. Unit {0}))
  unfolding handle_run_request perform_curl_request hold_step
  request-Takes url s req res before =
      Drives-bind (Held 0 0 (λ env. env ≡ before)) (calls _ refl) λ u.
        Drives-bind (Held 0 0 (λ env. env ≡ before)) (calls _ refl) λ u.
          Drives-bind _ (Drives-scoped _ _ _ _ overlooks (λ e. fetch-Takes _ e before))
            λ x. finish-Takes s req res x _

  -- A request to the cURL example always frees its handle, on success and on failure, and never gives back
  -- what it does not hold. Of the lists of headers it leaves exactly the lost ones: one for each header that
  -- curl has no memory for while there is a list.
  pub handle_run_request-Owes :
      (url : Text) (s : ℕ) (req : Request) (res : Response) (d : ℕ) (w : World curl.Env)
      → let (ready, after) = curl.init w.env in
        let r = handle_run_request curl url s req res d w in
        IsReturned r.out × (drive hold_step (0, 0) r.log ≡ some (0, lost_by ready after))
  handle_run_request-Owes url s req res d w =
      let (ready, after) = curl.init w.env in
      let (t, went, ends) = (request-Takes url s req res w.env).at d w (0, 0) (refl, refl) in
      let (done, returned, same) =
        Returns-returned (λ a env. Held 0 (lost_by ready after) (λ env. Unit {0}) a t env) _ _
          ends in
      (rw returned tt, went ∙ ap some same.0)
