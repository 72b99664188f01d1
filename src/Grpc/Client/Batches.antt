-- ===== src/Grpc/Client/Batches.antt =====
-- What the client interceptor leaves behind after a call in any number of batches.
use pinpoint_cpp_examples.Common.{
  ℕ, ◌≡◌, refl, ap, ◌∙◌, inl, inr, true, false, Bool-cases, Option, none, some, List, [], ◌∷◌, ◌++◌,
  append-nil, All,
}
use pinpoint_cpp_examples.Trace.Protocol.{open_span, run}
use pinpoint_cpp_examples.Trace.{Call}
use pinpoint_cpp_examples.Grpc.Client.{
  ClientInfo, Batch, Interceptor, begun, on_receive, on_send, both, intercept, joined, follow,
  call_batches, client_call,
}
use pinpoint_cpp_examples.Grpc.Client.Closed.{
  Reached, begun-Reached, finished-Closed, on_receive-Reached, intercept_send,
}

-- The metadata are sent in another batch.
abbrev pub IsLater : Batch → Type 0
IsLater batch = batch.pre_send_initial_metadata ≡ false

-- The span is as it was, and the interceptor has no event.
abbrev pub IsClosed : ℕ → ℕ → List Call × Interceptor → Type 0
IsClosed s d r = (run (open_span s d) r.0 ≡ some (open_span s d)) × (r.1.span_event ≡ none)

follow_later :
    (info : ClientInfo) (batch : Batch) (s d : ℕ) (r : List Call × Interceptor)
    → IsLater batch
    → follow info batch (some s) d (some r)
      ≡ some (r.0 ++ (on_receive batch r.1).0, (on_receive batch r.1).1)
unfolding follow joined intercept on_send both
follow_later info batch s d r later = rw later refl

on_receive-IsClosed :
    (batch : Batch) (s d : ℕ) (r : List Call × Interceptor)
    → IsClosed s d r
    → IsClosed s d (r.0 ++ (on_receive batch r.1).0, (on_receive batch r.1).1)
unfolding on_receive
on_receive-IsClosed batch s d r h = elim (Bool-cases batch.post_recv_status) [
  | inl e ↦ rw e (finished-Closed batch.recv_status s d r.0 r.1 (inl h))
  | inr e ↦ rw (e, append-nil r.0) h
]

module _ (info : ClientInfo) (s d : ℕ) where
  -- Later batches keep what each of them keeps.
  later_keep :
      (P : List Call × Interceptor → Type 0)
      → ((batch : Batch) (r : List Call × Interceptor)
          → P r
          → P (r.0 ++ (on_receive batch r.1).0, (on_receive batch r.1).1))
      → (batches : List Batch) (r : List Call × Interceptor) → All IsLater batches
      → P r
      → (after : List Call × Interceptor) × (call_batches info batches (some s) d (some r)
          ≡ some after)
        × P after
  unfolding call_batches
  later_keep P keeps [] r h p = (r, refl, p)
  later_keep P keeps (batch ∷ batches) r h p =
      let next : List Call × Interceptor =
        (r.0 ++ (on_receive batch r.1).0, (on_receive batch r.1).1) in
      let (after, e, q) = later_keep P keeps batches next h.1 (keeps batch r p) in
      (after, ap (call_batches info batches (some s) d) (follow_later info batch s d r h.0) ∙ e, q)

  call_batches-append :
      (xs ys : List Batch) (r : Option (List Call × Interceptor))
      → call_batches info (xs ++ ys) (some s) d r
        ≡ call_batches info ys (some s) d (call_batches info xs (some s) d r)
  unfolding call_batches
  call_batches-append [] ys r = refl
  call_batches-append (x ∷ xs) ys r = call_batches-append xs ys (follow info x (some s) d r)

  receives :
      (last : Batch) (r : List Call × Interceptor)
      → last.post_recv_status ≡ true
      → Reached s d r
      → IsClosed s d (r.0 ++ (on_receive last r.1).0, (on_receive last r.1).1)
  unfolding on_receive
  receives last r e h = rw e (finished-Closed last.recv_status s d r.0 r.1 h)

  pub client_call-Closed :
      (send last : Batch) (before behind : List Batch)
      → send.pre_send_initial_metadata ≡ true
      → All IsLater before
      → IsLater last
      → last.post_recv_status ≡ true
      → All IsLater behind
      → (r : List Call × Interceptor) × (client_call info send (before ++ last ∷ behind) (some s) d
          ≡ some r)
        × IsClosed s d r
  unfolding client_call call_batches both
  client_call-Closed send last before behind h k later e m =
      let start = begun info send s d in
      let sent : List Call × Interceptor =
        (start.0 ++ (on_receive send start.1).0, (on_receive send start.1).1) in
      let reached = on_receive-Reached send s d start.0 start.1 (begun-Reached info send s d) in
      let (mid, to_mid, still) =
        later_keep (Reached s d) (λ batch r. on_receive-Reached batch s d r.0 r.1) before sent k
          reached in
      let ended : List Call × Interceptor =
        (mid.0 ++ (on_receive last mid.1).0, (on_receive last mid.1).1) in
      let (after, to_after, closed) =
        later_keep (IsClosed s d) (λ batch r. on_receive-IsClosed batch s d r) behind ended m
          (receives last mid e still) in
      (
        after,
        ap (call_batches info (before ++ last ∷ behind) (some s) d)
              (intercept_send info send s d (record { parent_span = none; span_event = none }) h)
            ∙ call_batches-append before (last ∷ behind) (some sent)
            ∙ ap (call_batches info (last ∷ behind) (some s) d) to_mid
            ∙ ap (call_batches info behind (some s) d) (follow_later info last s d mid later)
            ∙ to_after,
        closed,
      )
