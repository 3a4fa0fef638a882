-- ===== src/Middleware/Http.antt =====
-- http/http.go: the server middleware and the client round tripper, and the classifiers of
-- http/option.go. Handlers, transports, writers, requests and contexts are the caller's.

pub mod Slots
pub mod Status
pub mod Options
use go_concurrency_limits.Base.{Bool, true, false, Option, none, some, List, [], ◌∷◌, if◌then◌else◌}
use go_concurrency_limits.Base.Int.{ℤ, pos, leb_ℤ, eqb_ℤ}
use go_concurrency_limits.Limiter.Interface.{Limiter}
use go_concurrency_limits.Middleware.{
  ResponseType, success, ignore, dropped, End, returns, panics, settle,
}

unfoldable pub classify_status_code : ℤ → ResponseType
classify_status_code code =
    if eqb_ℤ code (pos 429)
    then dropped
    else if leb_ℤ (pos 500) code
    then dropped
    else if leb_ℤ (pos 400) code
    then ignore
    else success

-- The wrapper of a writer W, whose WriteHeader is an argument.
pub record ResponseWriter (W : Type 0) : Type 0 where
  pub inner : W
  pub status_code : ℤ

module _ {W : Type 0} where
  abbrev pub new_response_writer : W → ResponseWriter W
  new_response_writer w = record { inner = w; status_code = pos 200 }

  unfoldable pub write_header : (ℤ → W → W) → ℤ → ResponseWriter W → ResponseWriter W
  write_header inner_write code rw = record {
    status_code = code;
    inner = inner_write code rw.inner;
  }

  -- The calls of WriteHeader that a handler makes, in order.
  unfoldable pub write_headers : (ℤ → W → W) → List ℤ → ResponseWriter W → ResponseWriter W
  unfolding write_header
  write_headers inner_write [] rw = rw
  write_headers inner_write (code ∷ codes) rw =
      write_headers inner_write codes (write_header inner_write code rw)

  -- E is the type of errors; none is nil.
  unfoldable pub default_server_response_classifier :
      {E : Type 0} → ResponseWriter W → Option E → ResponseType
  unfolding classify_status_code
  default_server_response_classifier w (some err) = dropped
  default_server_response_classifier w none = classify_status_code w.status_code

-- The response is its status code, or nil.
unfoldable pub default_client_response_classifier :
    {E : Type 0} → Option ℤ → Option E → ResponseType
unfolding classify_status_code
default_client_response_classifier resp (some err) = dropped
default_client_response_classifier none none = ignore
default_client_response_classifier (some code) none = classify_status_code code

-- What the handler or the transport does with the limiter's slots is outside; the server's handler is
-- given by the status codes that it writes and by how it ends.
pub record Handler : Type 0 where
  pub codes : List ℤ
  pub end : End (Unit {0})

-- What a request leads to: the limiter, the client's writer, whether the handler was called, and
-- whether the middleware returned.
pub record Served (S W : Type 0) : Type 0 where
  pub limiter : S
  pub writer : W
  pub forwarded : Bool
  pub end : End (Unit {0})

module _ (d : Limiter) {W : Type 0} (inner_write : ℤ → W → W) where
  open d use {State, Ctx, Listener, Clock}

  -- The http.HandlerFunc of NewServerMiddleware; exceeded is the limitExceededHandler, c and c' the
  -- clock's readings in Acquire and in the report. The classifier is given a nil error.
  unfoldable pub serve_http :
      Clock
      → Clock
      → (ResponseWriter W → ResponseType)
      → (W → W)
      → Handler
      → Ctx
      → W
      → State
      → Served State W
  unfolding settle write_headers
  serve_http c c' classifier exceeded next ctx w s =
      let (t, r) = d.acquire c ctx s in
      let rw = write_headers inner_write next.codes (new_response_writer w) in
      elim r [
        | none ↦ record { limiter = t; writer = exceeded w; forwarded = false; end = returns tt }
        | some token ↦ record {
          limiter = settle d c' (λ u. classifier rw) next.end token t;
          writer = rw.inner;
          forwarded = true;
          end = next.end;
        }
      ]

-- The outcome of RoundTrip: LimitExceededError, or what the transport gave.
pub data Trip (E : Type 0) : Type 0 where
  limit_exceeded : Trip E
  tripped : End (Option ℤ × Option E) → Trip E

module _ (d : Limiter) {E T : Type 0} where
  open d use {State, Ctx, Clock}

  -- base is the transport's RoundTrip, which may change the state T of everything that it reaches.
  unfoldable pub round_trip :
      Clock
      → Clock
      → (Option ℤ → Option E → ResponseType)
      → (T → T × End (Option ℤ × Option E))
      → Ctx
      → T
      → State
      → State × T × Trip E
  unfolding settle
  round_trip c c' classifier base ctx net s =
      let (t, r) = d.acquire c ctx s in
      elim r [
        | none ↦ (t, net, limit_exceeded)
        | some token ↦
            let (net', end) = base net in
            (settle d c' (λ p. classifier p.0 p.1) end token t, net', tripped end)
      ]
