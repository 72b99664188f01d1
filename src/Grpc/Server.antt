-- ===== src/Grpc/Server.antt =====
-- `PinpointServerInterceptor`: the span of a call to the gRPC server. gRPC calls `Intercept` once per
-- batch of operations; a batch may have several hook points. Every call of `Intercept` ends with
-- `Proceed`, which is left out.
use pinpoint_cpp_examples.Common.{
  ℕ, ◌≡◌, refl, ◌∙◌, Bool, true, false, not, Option, none, some, List, [], ◌∷◌, ◌++◌, arith, Text,
  lit, if◌then◌else◌, ==_refl,
}
use pinpoint_cpp_examples.Trace.{
  Call, set_service_type, set_remote_address, set_named_error, grpc_server, grpc_metadata, new_span,
  on_span, end_span,
}
use pinpoint_cpp_examples.Trace.Protocol.{State, closed, open_span, run, run-append, run-nil}
use pinpoint_cpp_examples.Grpc.Peer.{resolve_peer_host}

-- `grpc::Status`: what `ok()` and `error_message()` say.
pub record Status : Type 0 where
  pub ok : Bool
  pub error_message : Text

-- `ServerRpcInfo`: the method, and the peer of the server context where there is one.
pub record RpcInfo : Type 0 where
  pub method : Text
  pub peer : Option Text

-- A batch: which of the two hook points it has, the status that it sends, and what the agent answers
-- in it, namely the pointer from `NewSpan`, null for `none`, and `IsSampled`.
pub record Batch : Type 0 where
  pub post_recv_initial_metadata : Bool
  pub pre_send_status : Bool
  pub send_status : Status
  pub created : Option ℕ
  pub is_sampled : Bool

-- `span_`, and the thread's `g_current_span`.
pub record Interceptor : Type 0 where
  pub span : Option ℕ
  pub current : Option ℕ

peer_calls : ℕ → Option Text → List Call
peer_calls s none = []
peer_calls s (some peer) = on_span s (set_remote_address (resolve_peer_host peer)) ∷ []

-- The calls that create a span.
created_calls : RpcInfo → Batch → Option ℕ → List Call
unfolding peer_calls
created_calls info batch none = []
created_calls info batch (some s) =
    new_span s (lit "gRPC Server") info.method (some grpc_metadata)
    ∷ (if batch.is_sampled
        then on_span s (set_service_type grpc_server) ∷ peer_calls s info.peer
        else [])

-- The first half of `Intercept`.
unfoldable pub on_metadata : RpcInfo → Batch → Interceptor → List Call × Interceptor
unfolding created_calls
on_metadata info batch i =
    if batch.post_recv_initial_metadata
    then elim i.span [
      | none ↦ (
        created_calls info batch batch.created,
        record { span = batch.created; current = batch.created },
      )
      | some s ↦ ([], i)
    ]
    else ([], i)

status_calls : ℕ → Status → List Call
status_calls s status =
    if not status.ok
    then on_span s (set_named_error (lit "grpc error") status.error_message) ∷ []
    else []

-- The calls that end a span.
ending_calls : Status → Option ℕ → List Call
unfolding status_calls
ending_calls status none = []
ending_calls status (some s) = status_calls s status ++ end_span s ∷ []

-- The second half.
unfoldable pub on_status : Batch → Interceptor → List Call × Interceptor
unfolding ending_calls
on_status batch i =
    if batch.pre_send_status
    then (ending_calls batch.send_status i.span, record { span = none; current = none })
    else ([], i)

unfoldable pub intercept : RpcInfo → Batch → Interceptor → List Call × Interceptor
unfolding on_metadata on_status
intercept info batch i =
    let (began, j) = on_metadata info batch i in
    let (ended, k) = on_status batch j in (began ++ ended, k)

-- A call to the server as gRPC delivers it: one batch after the other.
unfoldable pub intercept_all : RpcInfo → List Batch → Interceptor → List Call × Interceptor
unfolding intercept
intercept_all info [] i = ([], i)
intercept_all info (batch ∷ batches) i =
    let (calls, j) = intercept info batch i in
    let (rest, k) = intercept_all info batches j in (calls ++ rest, k)

-- Where the protocol stands when the interceptor holds this span.
abbrev pub standing : Option ℕ → State
standing none = closed
standing (some s) = open_span s 0

created_calls-run :
    (info : RpcInfo) (batch : Batch) (o : Option ℕ)
    → run closed (created_calls info batch o) ≡ some (standing o)
unfolding created_calls run peer_calls
created_calls-run info batch none = refl
created_calls-run info batch (some s) = sampled batch.is_sampled info.peer
  where
    sampled :
        (b : Bool) (peer : Option Text)
        → run
            (open_span s 0)
            (if b then on_span s (set_service_type grpc_server) ∷ peer_calls s peer else [])
          ≡ some (open_span s 0)
    sampled false peer = refl
    sampled true none = rw (==_refl s) refl
    sampled true (some p) = ground arith

ending_calls-run :
    (status : Status) (o : Option ℕ) → run (standing o) (ending_calls status o) ≡ some closed
unfolding ending_calls run status_calls
ending_calls-run status none = refl
ending_calls-run status (some s) = by_ok status.ok
  where
    by_ok :
        (b : Bool)
        → run (open_span s 0) (
            (if not b
              then on_span s (set_named_error (lit "grpc error") status.error_message) ∷ []
              else [])
            ++ end_span s ∷ [])
          ≡ some closed
    by_ok true = rw (==_refl s) refl
    by_ok false = ground arith

on_metadata-run :
    (info : RpcInfo) (batch : Batch) (i : Interceptor)
    → run (standing i.span) (on_metadata info batch i).0
      ≡ some (standing (on_metadata info batch i).1.span)
unfolding on_metadata run
on_metadata-run info batch i = by_hook batch.post_recv_initial_metadata i.span i.current
  where
    by_hook :
        (b : Bool) (o c : Option ℕ)
        → let r =
            on_metadata info
              (record batch { post_recv_initial_metadata = b })
              (record { span = o; current = c }) in
          run (standing o) r.0 ≡ some (standing r.1.span)
    by_hook false o c = refl
    by_hook true none c = created_calls-run info batch batch.created
    by_hook true (some s) c = refl

on_status-run :
    (batch : Batch) (i : Interceptor)
    → run (standing i.span) (on_status batch i).0 ≡ some (standing (on_status batch i).1.span)
unfolding on_status run
on_status-run batch i = by_hook batch.pre_send_status
  where
    by_hook :
        (b : Bool)
        → let r = on_status (record batch { pre_send_status = b }) i in
          run (standing i.span) r.0 ≡ some (standing r.1.span)
    by_hook false = refl
    by_hook true = ending_calls-run batch.send_status i.span

-- Whatever the batch, the interceptor follows the discipline of spans from the span that it holds to the
-- span that it holds afterwards.
pub intercept-run :
    (info : RpcInfo) (batch : Batch) (i : Interceptor)
    → run (standing i.span) (intercept info batch i).0
      ≡ some (standing (intercept info batch i).1.span)
unfolding intercept
intercept-run info batch i =
    run-append _ (standing (on_metadata info batch i).1.span) (on_metadata info batch i).0
      (on_status batch (on_metadata info batch i).1).0 (on_metadata-run info batch i)
    ∙ on_status-run batch (on_metadata info batch i).1

pub intercept_all-run :
    (info : RpcInfo) (batches : List Batch) (i : Interceptor)
    → run (standing i.span) (intercept_all info batches i).0
      ≡ some (standing (intercept_all info batches i).1.span)
unfolding intercept_all
intercept_all-run info [] i = run-nil _
intercept_all-run info (batch ∷ batches) i =
    let j = (intercept info batch i).1 in
    run-append _ (standing j.span) (intercept info batch i).0 (intercept_all info batches j).0
      (intercept-run info batch i)
    ∙ intercept_all-run info batches j

-- Whatever batches gRPC delivers for a call, in whatever order and however often, the interceptor's calls
-- keep to the discipline of spans: it has at most one span at a time, tells it nothing after its end, and
-- ends it at most once. With a batch that sends the status as the last one, no span is left, in the
-- interceptor or on the thread.
pub server_call-Ended :
    (info : RpcInfo) (batches : List Batch) (last : Batch) (current : Option ℕ)
    → last.pre_send_status ≡ true
    → let fresh : Interceptor = record { span = none; current = current } in
      let before = intercept_all info batches fresh in
      let after = intercept info last before.1 in
      (run closed (before.0 ++ after.0) ≡ some closed)
      × (after.1.span ≡ none)
      × (after.1.current ≡ none)
unfolding intercept on_status
server_call-Ended info batches last current h =
    let fresh : Interceptor = record { span = none; current = current } in
    let before = intercept_all info batches fresh in
    (
      run-append _ (standing before.1.span) before.0 (intercept info last before.1).0
            (intercept_all-run info batches fresh)
          ∙ intercept-run info last before.1
          ∙ rw h refl,
      rw h refl,
      rw h refl,
    )
