-- ===== src/Tests/Middleware.antt =====
-- The middleware over the default limiter with one slot.
use go_concurrency_limits.Base.{ℕ, ◌+◌, ◌≡◌, ◌⊎◌, refl, none, some, Option, List, [], ◌∷◌}
use go_concurrency_limits.Base.Int.{ℤ, pos, pos_part, int32, int64}
use go_concurrency_limits.Limiter.Default
use go_concurrency_limits.Strategy.Precise
use go_concurrency_limits.Middleware.{
  ResponseType, dropped, End, returns, panics, IsGuarded, SlotAfter,
}
use go_concurrency_limits.Middleware.Http
use go_concurrency_limits.Middleware.Http.Options as HttpOptions
use go_concurrency_limits.Middleware.Http.Slots as HttpSlots
use go_concurrency_limits.Middleware.Http.Status
use go_concurrency_limits.Middleware.Grpc
use go_concurrency_limits.Middleware.Grpc.Slots as GrpcSlots
use go_concurrency_limits.Tests.Queues.{
  delegate, laws, one_slot, one_slot-GoodLimiter, at_time, held,
}

-- A writer is the list of the codes it was given, the newest first.
abbrev Writer : Type 0
Writer = List ℤ

abbrev write : ℤ → Writer → Writer
write code w = code ∷ w

abbrev unavailable : Writer → Writer
unavailable w = pos 503 ∷ w

-- A handler that writes a header and panics.
abbrev faulty : Http.Handler
faulty = record { codes = pos 200 ∷ []; end = panics }

abbrev classifier : Http.ResponseWriter Writer → ResponseType
classifier w = Http.default_server_response_classifier {E = Unit {0}} w none

serve_http_slots_example :
    let r =
      Http.serve_http delegate write
        (at_time 5)
        (at_time 9)
        classifier
        unavailable
        faulty
        tt
        []
        one_slot in
    HttpSlots.IsRefused delegate laws write unavailable [] one_slot r
    ⊎ HttpSlots.IsForwarded delegate laws write classifier faulty [] one_slot r
serve_http_slots_example =
    HttpSlots.serve_http_slots delegate laws write (at_time 5) (at_time 9) classifier unavailable
      faulty tt [] one_slot one_slot-GoodLimiter

-- The slot is lost.
faulty_lem :
    pos_part
      (Http.serve_http delegate write
        (at_time 5)
        (at_time 9)
        classifier
        unavailable
        faulty
        tt
        []
        one_slot).limiter.in_flight
    ≡ 1
unfolding Http.serve_http Default.acquire Precise.try_acquire int32 int64
faulty_lem = refl

serve_http_default_example :
    Status.IsReported delegate write
      (at_time 9)
      (record held { start_time = pos 5 })
      (pos 404)
      (delegate.acquire (at_time 5) tt one_slot).0
      (Http.serve_http delegate write
        (at_time 5)
        (at_time 9)
        classifier
        unavailable
        (record { codes = pos 200 ∷ pos 404 ∷ []; end = returns tt })
        tt
        []
        one_slot).limiter
serve_http_default_example =
    Status.serve_http_default delegate write (Unit {0}) (at_time 5) (at_time 9) unavailable
      (pos 200 ∷ pos 404 ∷ []) tt [] one_slot (record held { start_time = pos 5 })
      (unfold Default.acquire Precise.try_acquire int32 int64 in refl)

abbrev trip_classifier : Option ℤ → Option (Unit {0}) → ResponseType
trip_classifier = Http.default_client_response_classifier

-- A transport that counts what it sends.
abbrev answer : ℕ → ℕ × End (Option ℤ × Option (Unit {0}))
answer sent = (sent + 1, returns (some (pos 200), none))

round_trip_slots_example :
    let r = Http.round_trip delegate (at_time 5) (at_time 9) trip_classifier answer tt 3 one_slot in
    laws.Good r.0
    × (((r.2 ≡ Http.limit_exceeded) × (r.1 ≡ 3) × (laws.slots r.0 ≡ laws.slots one_slot))
        ⊎ ((r.2 ≡ Http.tripped (answer 3).1)
            × (r.1 ≡ 4)
            × SlotAfter delegate laws (λ p. trip_classifier p.0 p.1) (answer 3).1 one_slot r.0))
round_trip_slots_example =
    HttpSlots.round_trip_slots delegate laws (at_time 5) (at_time 9) trip_classifier answer tt 3
      one_slot one_slot-GoodLimiter

abbrev named : List (HttpOptions.InterceptorOption ℕ ℕ ℕ ℕ)
named =
    HttpOptions.with_name (97 ∷ []) ∷ HttpOptions.with_limiter 1 ∷ HttpOptions.with_limiter 2 ∷ []

configure-IsLastWins_example :
    HttpOptions.IsLastWins ℕ ℕ ℕ ℕ named (HttpOptions.configure ℕ ℕ ℕ ℕ named)
configure-IsLastWins_example = HttpOptions.configure-IsLastWins ℕ ℕ ℕ ℕ named

-- Codes and errors are numbers.
abbrev status : ℕ → ℕ → Option ℕ
status code err = some code

abbrev exceeded : Grpc.Exceeded ℕ ℕ ℕ
exceeded = record { resp = 0; code = 8; err = some 1 }

abbrev server_type : ℕ → Option ℕ → ResponseType
server_type resp err = Grpc.default_response_classifier err

unary_slots_example :
    IsGuarded delegate laws
      (at_time 5)
      (λ (p : ℕ × Option ℕ). server_type p.0 p.1)
      (Grpc.refusal status (λ resp err. (resp, err)) exceeded)
      (returns (7, none))
      tt
      one_slot
      (Grpc.unary_server delegate status
        (at_time 5)
        (at_time 9)
        server_type
        exceeded
        (returns (7, none))
        tt
        one_slot)
    × IsGuarded delegate laws
        (at_time 5)
        Grpc.default_response_classifier
        (Grpc.refusal status (λ resp err. err) exceeded)
        panics
        tt
        one_slot
        (Grpc.unary_client delegate status
          (at_time 5)
          (at_time 9)
          Grpc.default_response_classifier
          exceeded
          panics
          tt
          one_slot)
unary_slots_example =
    GrpcSlots.unary_slots delegate laws status (at_time 5) (at_time 9) server_type
      Grpc.default_response_classifier exceeded (returns (7, none)) panics tt one_slot
      one_slot-GoodLimiter

abbrev message : GrpcSlots.Direction → GrpcSlots.Message delegate ℕ ℕ ℕ
message dir = record {
  direction = dir;
  asked = at_time 5;
  reported = at_time 9;
  ctx = tt;
  exceeded = exceeded;
  end = returns (some 3);
}

abbrev messages : List (GrpcSlots.Message delegate ℕ ℕ ℕ)
messages = message GrpcSlots.send ∷ message GrpcSlots.recv ∷ message GrpcSlots.send ∷ []

abbrev stream : Grpc.StreamState delegate delegate
stream = record { recv_limiter = one_slot; send_limiter = one_slot }

abbrev drops : ℕ → ResponseType
drops err = dropped

messages_slots_example :
    let t = GrpcSlots.run delegate delegate status drops drops messages stream in
    laws.Good t.recv_limiter × (laws.slots t.recv_limiter ≡ 0) × (t.send_limiter ≡ one_slot)
messages_slots_example =
    GrpcSlots.messages_slots delegate delegate status laws drops drops messages stream
      one_slot-GoodLimiter (refl, (refl, (refl, tt)))
