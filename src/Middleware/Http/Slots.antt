-- ===== src/Middleware/Http/Slots.antt =====
-- What a request through the middleware does to the slots of its limiter.
use go_concurrency_limits.Base.{◌≡◌, refl, true, false, Option, ◌⊎◌, inl, inr, Option-cases}
use go_concurrency_limits.Base.Int.{ℤ}
use go_concurrency_limits.Limiter.Interface.{Limiter, CountsSlots}
use go_concurrency_limits.Middleware.{ResponseType, End, SlotAfter, settle-acquire}
use go_concurrency_limits.Middleware.Http.{
  ResponseWriter, Handler, Served, new_response_writer, write_headers, serve_http, round_trip,
  limit_exceeded, tripped,
}

module _ (d : Limiter) (law : CountsSlots d) {W : Type 0} (inner_write : ℤ → W → W) where
  open d use {State, Ctx, Clock}
  open law use {slots, Good, acquire_none}

  -- Refused: the handler is not called, and the limit-exceeded handler answers.
  pub record IsRefused (exceeded : W → W) (w : W) (s : State) (r : Served State W) : Type 0 where
    pub not_forwarded : r.forwarded ≡ false
    pub answered : r.writer ≡ exceeded w
    pub good : Good r.limiter
    pub same : slots r.limiter ≡ slots s

  -- Granted: the handler is called; the slot is given back if the handler returned and its response
  -- was classified as one of the three types, and is lost otherwise.
  pub record IsForwarded (classifier : ResponseWriter W → ResponseType) (next : Handler) (w : W)
      (s : State) (r : Served State W) : Type 0 where
    pub forwarded : r.forwarded ≡ true
    pub written : r.writer ≡ (write_headers inner_write next.codes (new_response_writer w)).inner
    pub good : Good r.limiter
    pub slot :
        SlotAfter d law
          (λ (u : Unit {0}).
            classifier (write_headers inner_write next.codes (new_response_writer w)))
          next.end
          s
          r.limiter

  -- A request that is refused is answered without the handler, and takes no slot. A request that is
  -- granted one gives it back if its handler returns and its classification is one of the three; if
  -- the handler panics, or a custom classifier gives another value, the slot stays taken.
  pub serve_http_slots :
      (c c' : Clock) (classifier : ResponseWriter W → ResponseType) (exceeded : W → W)
      (next : Handler) (ctx : Ctx) (w : W) (s : State)
      → Good s
      → let r = serve_http d inner_write c c' classifier exceeded next ctx w s in
        IsRefused exceeded w s r ⊎ IsForwarded classifier next w s r
  unfolding serve_http
  serve_http_slots c c' classifier exceeded next ctx w s good =
      elim (Option-cases (d.acquire c ctx s).1) [
        | inl e ↦
            let (g, k) = acquire_none c ctx s good e in
            rw (e, serve_http)
              (inl (record { not_forwarded = refl; answered = refl; good = g; same = k }))
        | inr (token, e) ↦
            let rw' = write_headers inner_write next.codes (new_response_writer w) in
            let (g, k) =
              settle-acquire d law c c' (λ u. classifier rw') next.end ctx s token good e in
            rw (e, serve_http)
              (inr (record { forwarded = refl; written = refl; good = g; slot = k }))
      ]

module _ (d : Limiter) (law : CountsSlots d) {E T : Type 0} where
  open d use {State, Ctx, Clock}
  open law use {slots, Good, acquire_none}

  -- A round trip either fails with the error of the exceeded limit, with nothing sent (the state of what
  -- the transport reaches is as before) and no slot taken, or calls the transport once and ends as it
  -- does, and the slot it took is given back if the transport returned and the outcome was classified as
  -- one of the three types, and is lost otherwise.
  pub round_trip_slots :
      (c c' : Clock) (classifier : Option ℤ → Option E → ResponseType)
      (base : T → T × End (Option ℤ × Option E)) (ctx : Ctx) (net : T) (s : State)
      → Good s
      → let r = round_trip d c c' classifier base ctx net s in
        Good r.0
        × (((r.2 ≡ limit_exceeded) × (r.1 ≡ net) × (slots r.0 ≡ slots s))
            ⊎ ((r.2 ≡ tripped (base net).1)
                × (r.1 ≡ (base net).0)
                × SlotAfter d law (λ p. classifier p.0 p.1) (base net).1 s r.0))
  unfolding round_trip
  round_trip_slots c c' classifier base ctx net s good = elim (Option-cases (d.acquire c ctx s).1) [
    | inl e ↦
        let (g, k) = acquire_none c ctx s good e in rw (e, round_trip) (g, inl (refl, refl, k))
    | inr (token, e) ↦
        let (g, k) =
          settle-acquire d law c c' (λ p. classifier p.0 p.1) (base net).1 ctx s token good e in
        rw (e, round_trip) (g, inr (refl, refl, k))
  ]
