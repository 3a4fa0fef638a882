-- ===== src/Middleware/Grpc/Slots.antt =====
-- What calls and streams through the interceptors do to the slots of their limiters.
use go_concurrency_limits.Base.{◌≡◌, refl, ◌∙◌, Option, List, [], ◌∷◌, Bool, true, All}
use go_concurrency_limits.Limiter.Interface.{Limiter, CountsSlots}
use go_concurrency_limits.Middleware.{
  ResponseType, End, IsGuarded, guarded-IsGuarded, guarded-reported, is_settled,
}
use go_concurrency_limits.Middleware.Grpc.{
  Exceeded, refusal, unary_server, unary_client, message_type, StreamState, recv_msg, send_msg,
}

module _ (d : Limiter) (law : CountsSlots d) {A C E : Type 0}
    (status_error : C → E → Option E) where
  open d use {State, Ctx, Clock}
  open law use {Good}

  -- A call through the server's interceptor, and one through the client's. Without a token it ends with
  -- the refusal, which panics where the classifier gives no error, and takes no slot. With one it ends as
  -- the handler or the invoker does, and gives its slot back if that returned and its outcome was
  -- classified as one of the three types; otherwise the slot stays taken.
  pub unary_slots :
      (c c' : Clock) (server : A → Option E → ResponseType) (client : Option E → ResponseType)
      (exceeded : Exceeded A C E) (handler : End (A × Option E)) (invoker : End (Option E))
      (x : Ctx) (s : State)
      → Good s
      → IsGuarded d law c
          (λ (p : A × Option E). server p.0 p.1)
          (refusal status_error (λ resp err. (resp, err)) exceeded)
          handler
          x
          s
          (unary_server d status_error c c' server exceeded handler x s)
        × IsGuarded d law c client
            (refusal status_error (λ resp err. err) exceeded)
            invoker
            x
            s
            (unary_client d status_error c c' client exceeded invoker x s)
  unfolding unary_server unary_client
  unary_slots c c' server client exceeded handler invoker x s good = (
    guarded-IsGuarded d law c c' (λ p. server p.0 p.1)
        (refusal status_error (λ resp err. (resp, err)) exceeded) handler x s good,
    guarded-IsGuarded d law c c' client (refusal status_error (λ resp err. err) exceeded) invoker x
        s good,
  )

-- A call of RecvMsg or of SendMsg.
pub data Direction : Type 0 where
  recv send : Direction

pub record Message (receiver : Limiter) (A C E : Type 0) : Type 0 where
  pub direction : Direction
  pub asked : receiver.Clock
  pub reported : receiver.Clock
  pub ctx : receiver.Ctx
  pub exceeded : Exceeded A C E
  pub end : End (Option E)

-- The stream's call returned, and its error, if it has one, is classified as one of the three types.
abbrev pub is_reported :
    {E : Type 0} → Direction → (E → ResponseType) → (E → ResponseType) → End (Option E) → Bool
is_reported recv server client e = is_settled (message_type server) e
is_reported send server client e = is_settled (message_type client) e

module _ (receiver sender : Limiter) (law : CountsSlots receiver) where
  open law use {slots, Good}

  abbrev Kept : StreamState receiver sender → StreamState receiver sender → Type 0
  Kept s t =
      Good t.recv_limiter
      × (slots t.recv_limiter ≡ slots s.recv_limiter)
      × (t.send_limiter ≡ s.send_limiter)

module _ (receiver sender : Limiter) {A C E : Type 0} (status_error : C → E → Option E) where
  -- The call in a direction, under the classifiers of the stream's configuration.
  unfoldable pub step_in :
      Direction
      → (E → ResponseType)
      → (E → ResponseType)
      → Message receiver A C E
      → StreamState receiver sender
      → StreamState receiver sender
  unfolding recv_msg send_msg
  step_in recv server client m s =
      (recv_msg receiver sender status_error m.asked m.reported server m.exceeded m.end m.ctx s).0
  step_in send server client m s =
      (send_msg receiver sender status_error m.asked m.reported client m.exceeded m.end m.ctx s).0

  unfoldable pub run :
      (E → ResponseType)
      → (E → ResponseType)
      → List (Message receiver A C E)
      → StreamState receiver sender
      → StreamState receiver sender
  unfolding step_in
  run server client [] s = s
  run server client (m ∷ ms) s = run server client ms (step_in m.direction server client m s)

  module _ (law : CountsSlots receiver) where
    open law use {slots, Good}

    step_in-Kept :
        (dir : Direction) (server client : E → ResponseType) (m : Message receiver A C E)
        (s : StreamState receiver sender)
        → Good s.recv_limiter
        → is_reported dir server client m.end ≡ true
        → Kept receiver sender law s (step_in dir server client m s)
    unfolding step_in recv_msg send_msg
    step_in-Kept recv server client m s g k =
        let (g', e) =
          guarded-reported receiver law m.asked m.reported (message_type server)
            (refusal status_error (λ resp err. err) m.exceeded) m.end m.ctx s.recv_limiter g k in
        (g', e, refl)
    step_in-Kept send server client m s g k =
        let (g', e) =
          guarded-reported receiver law m.asked m.reported (message_type client)
            (refusal status_error (λ resp err. err) m.exceeded) m.end m.ctx s.recv_limiter g k in
        (g', e, refl)

    -- Over any messages in both directions whose outcomes are reported, the receiving limiter ends with
    -- as many slots taken as before, and the sending limiter is never asked: its state is the same.
    pub messages_slots :
        (server client : E → ResponseType) (ms : List (Message receiver A C E))
        (s : StreamState receiver sender)
        → Good s.recv_limiter
        → All (λ m. is_reported m.direction server client m.end ≡ true) ms
        → Good (run server client ms s).recv_limiter
          × (slots (run server client ms s).recv_limiter ≡ slots s.recv_limiter)
          × ((run server client ms s).send_limiter ≡ s.send_limiter)
    unfolding run
    messages_slots server client [] s g k = (g, refl, refl)
    messages_slots server client (m ∷ ms) s g k =
        let (g', e, f) = step_in-Kept m.direction server client m s g k.0 in
        let (g'', e', f') =
          messages_slots server client ms (step_in m.direction server client m s) g' k.1 in
        (g'', e' ∙ e, f' ∙ f)
