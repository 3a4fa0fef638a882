-- ===== src/Middleware/Grpc.antt =====
-- grpc/grpc_unary.go and grpc/grpc_streaming.go: the interceptors. Handlers, invokers, streams,
-- requests and the package google.golang.org/grpc are the caller's.
pub mod Unary
pub mod Streaming
pub mod Slots
use go_concurrency_limits.Base.{Option, none, some, List, [], ◌∷◌, ◌++◌, Bool, true, false}
use go_concurrency_limits.Limiter.Interface.{Limiter}
use go_concurrency_limits.Middleware.{ResponseType, success, dropped, End, returns, panics, guarded}

-- defaultClientResponseClassifier and its three fellows; none is a nil error.
abbrev pub default_response_classifier : {E : Type 0} → Option E → ResponseType
default_response_classifier (some err) = dropped
default_response_classifier none = success

-- A response, a code and an error, of a LimitExceededResponseClassifier; E is the type of errors.
pub record Exceeded (A C E : Type 0) : Type 0 where
  pub resp : A
  pub code : C
  pub err : Option E

-- status.Error(errCode, err.Error()), where a nil error panics. status_error gives nil for codes.OK.
abbrev pub refusal :
    {A B C E : Type 0} → (C → E → Option E) → (A → Option E → B) → Exceeded A C E → End B
refusal status_error wrap r = elim r.err [
  | none ↦ panics
  | some err ↦ returns (wrap r.resp (status_error r.code err))
]

module _ (d : Limiter) {A C E : Type 0} (status_error : C → E → Option E) where
  open d use {State, Ctx, Clock}

  -- The interceptor of UnaryServerInterceptor; handler is how the handler ends.
  unfoldable pub unary_server :
      Clock
      → Clock
      → (A → Option E → ResponseType)
      → Exceeded A C E
      → End (A × Option E)
      → Ctx
      → State
      → State × End (A × Option E)
  unfolding guarded
  unary_server c c' classifier exceeded handler ctx s =
      guarded d c c' (λ p. classifier p.0 p.1)
        (refusal status_error (λ resp err. (resp, err)) exceeded) handler ctx s

  -- The interceptor of UnaryClientInterceptor; invoker is how the invoker ends.
  unfoldable pub unary_client :
      Clock
      → Clock
      → (Option E → ResponseType)
      → Exceeded A C E
      → End (Option E)
      → Ctx
      → State
      → State × End (Option E)
  unfolding guarded
  unary_client c c' classifier exceeded invoker ctx s =
      guarded d c c' classifier (refusal status_error (λ resp err. err) exceeded) invoker ctx s

-- if err != nil { switch classifier(err) } else { token.OnSuccess() }
abbrev pub message_type : {E : Type 0} → (E → ResponseType) → Option E → ResponseType
message_type classifier none = success
message_type classifier (some err) = classifier err

-- The limiters of a stream's configuration.
pub record Stream (R S : Type 0) : Type 0 where
  pub recv_limiter : R
  pub send_limiter : S

abbrev pub StreamState : Limiter → Limiter → Type 0
StreamState receiver sender = Stream receiver.State sender.State

module _ (receiver sender : Limiter) {A C E : Type 0} (status_error : C → E → Option E) where
  -- message is how the wrapped stream's RecvMsg ends.
  unfoldable pub recv_msg :
      receiver.Clock
      → receiver.Clock
      → (E → ResponseType)
      → Exceeded A C E
      → End (Option E)
      → receiver.Ctx
      → StreamState receiver sender
      → StreamState receiver sender × End (Option E)
  unfolding guarded
  recv_msg c c' server_classifier exceeded message ctx s =
      let (t, r) =
        guarded receiver c c' (message_type server_classifier)
          (refusal status_error (λ resp err. err) exceeded) message ctx s.recv_limiter in
      (record s { recv_limiter = t }, r)

  -- SendMsg also asks recvLimiter.
  unfoldable pub send_msg :
      receiver.Clock
      → receiver.Clock
      → (E → ResponseType)
      → Exceeded A C E
      → End (Option E)
      → receiver.Ctx
      → StreamState receiver sender
      → StreamState receiver sender × End (Option E)
  unfolding guarded
  send_msg c c' client_classifier exceeded message ctx s =
      let (t, r) =
        guarded receiver c c' (message_type client_classifier)
          (refusal status_error (λ resp err. err) exceeded) message ctx s.recv_limiter in
      (record s { recv_limiter = t }, r)
