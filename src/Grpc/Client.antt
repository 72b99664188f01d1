-- ===== src/Grpc/Client.antt =====
-- `PinpointClientInterceptor`: the span event of a call from the gRPC client. Every call of `Intercept`
-- ends with `Proceed`, which is left out.
pub mod Closed
pub mod Batches
use pinpoint_cpp_examples.Common.{
  ℕ, suc, ◌≡◌, refl, ap, ◌∙◌, ◌⊎◌, inl, inr, Bool, true, false, Bool-cases, not, Option, none, some,
  List, [], ◌∷◌, ◌++◌, append-nil, arith, Text, lit, if◌then◌else◌,
}
use pinpoint_cpp_examples.Trace.Protocol.{open_span, run, run-append, run-nil}
use pinpoint_cpp_examples.Trace.{
  Call, set_service_type, set_destination, set_end_point, set_annotation, http_url, inject_context,
  set_named_error, grpc_client, default_type, grpc_metadata, new_event, on_event, end_event,
}
use pinpoint_cpp_examples.Grpc.Peer.{resolve_grpc_target}
use pinpoint_cpp_examples.Grpc.Server.{Status}

-- `info_` and `remote_`, which the factory has resolved from the dial target.
pub record ClientInfo : Type 0 where
  pub method : Text
  pub remote : Text
  pub has_context : Bool

-- `PinpointClientInterceptorFactory::CreateClientInterceptor`.
unfoldable pub create_client_interceptor : Text → Text → Bool → ClientInfo
create_client_interceptor target method has_context = record {
  method = method;
  remote = resolve_grpc_target target;
  has_context = has_context;
}

-- A batch: its hook points, the status that was received, null for `none`, and whether
-- `NewSpanEvent` makes an event.
pub record Batch : Type 0 where
  pub pre_send_initial_metadata : Bool
  pub post_recv_status : Bool
  pub recv_status : Option Status
  pub makes_event : Bool

-- `parent_span_` and `span_event_`; an event is named by the number of events open at its creation.
pub record Interceptor : Type 0 where
  pub parent_span : Option ℕ
  pub span_event : Option ℕ

inject_calls : ClientInfo → ℕ → List Call
inject_calls info e =
    if info.has_context then on_event e (inject_context grpc_metadata) ∷ [] else []

event_calls : ClientInfo → ℕ → ℕ → List Call
unfolding inject_calls
event_calls info s e =
    new_event (some s) e info.method default_type
    ∷ on_event e (set_service_type grpc_client)
    ∷ on_event e (set_destination info.remote)
    ∷ on_event e (set_end_point info.remote)
    ∷ on_event e (set_annotation http_url (lit "grpc://" ++ (info.remote ++ info.method)))
    ∷ inject_calls info e

pub begun : ClientInfo → Batch → ℕ → ℕ → List Call × Interceptor
unfolding event_calls
begun info batch s d =
    if batch.makes_event
    then (event_calls info s d, record { parent_span = some s; span_event = some d })
    else ([], record { parent_span = some s; span_event = none })

-- The first half, on a thread whose span is `current` with `d` open events; `none` is the failed
-- assertion, or the call through a null pointer where assertions are compiled out.
unfoldable pub on_send :
    ClientInfo → Batch → Option ℕ → ℕ → Interceptor → Option (List Call × Interceptor)
unfolding begun
on_send info batch current d i =
    if batch.pre_send_initial_metadata
    then elim current [ none ↦ none | some s ↦ some (begun info batch s d) ]
    else some ([], i)

error_calls : ℕ → Option Status → List Call
error_calls e none = []
error_calls e (some status) =
    if not status.ok
    then on_event e (set_named_error (lit "grpc error") status.error_message) ∷ []
    else []

pub finished : Option Status → Interceptor → List Call × Interceptor
unfolding error_calls
finished status i = elim i.span_event [
  | none ↦ ([], i)
  | some e ↦ elim i.parent_span [
    | none ↦ ([], i)
    | some s ↦ (error_calls e status ++ end_event e ∷ [], record i { span_event = none })
  ]
]

-- The second half.
unfoldable pub on_receive : Batch → Interceptor → List Call × Interceptor
unfolding finished
on_receive batch i = if batch.post_recv_status then finished batch.recv_status i else ([], i)

unfoldable pub both : Batch → Option (List Call × Interceptor) → Option (List Call × Interceptor)
unfolding on_receive
both batch none = none
both batch (some (sent, i)) = let (received, j) = on_receive batch i in some (sent ++ received, j)

unfoldable pub intercept :
    ClientInfo → Batch → Option ℕ → ℕ → Interceptor → Option (List Call × Interceptor)
unfolding on_send both
intercept info batch current d i = both batch (on_send info batch current d i)

unfoldable pub joined :
    List Call → Option (List Call × Interceptor) → Option (List Call × Interceptor)
joined calls none = none
joined calls (some next) = some (calls ++ next.0, next.1)

-- The next batch, unless the client has stopped.
unfoldable pub follow :
    ClientInfo
    → Batch
    → Option ℕ
    → ℕ
    → Option (List Call × Interceptor)
    → Option (List Call × Interceptor)
unfolding joined
follow info batch current d none = none
follow info batch current d (some r) = joined r.0 (intercept info batch current d r.1)

-- A call as gRPC delivers it on one thread, in two batches. The number of open events is that before
-- the call.
unfoldable pub unary_call :
    ClientInfo → Batch → Batch → Option ℕ → ℕ → Option (List Call × Interceptor)
unfolding follow
unary_call info send receive current d =
    follow info receive current d
      (intercept info send current d (record { parent_span = none; span_event = none }))

-- The batches behind the first, which are many for a stream of messages.
unfoldable pub call_batches :
    ClientInfo
    → List Batch
    → Option ℕ
    → ℕ
    → Option (List Call × Interceptor)
    → Option (List Call × Interceptor)
unfolding follow
call_batches info [] current d r = r
call_batches info (batch ∷ batches) current d r =
    call_batches info batches current d (follow info batch current d r)

-- A call in any number of batches.
unfoldable pub client_call :
    ClientInfo → Batch → List Batch → Option ℕ → ℕ → Option (List Call × Interceptor)
unfolding call_batches
client_call info send batches current d =
    call_batches info batches current d
      (intercept info send current d (record { parent_span = none; span_event = none }))
