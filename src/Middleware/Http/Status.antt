-- ===== src/Middleware/Http/Status.antt =====
-- What the server's default classifier makes of the status codes that a handler writes.
use go_concurrency_limits.Base.{
  ◌≡◌, ◌≢◌, refl, ap, subst, Bool-cases, ltb, leb, ◌==◌, none, some, List, [], ◌∷◌, ◌⊎◌, inl, inr,
  arith,
}
use go_concurrency_limits.Base.Int.{ℤ, pos, negsuc, ◌<ℤ◌, ◌≤ℤ◌}
use go_concurrency_limits.Limiter.Interface.{Limiter}
use go_concurrency_limits.Middleware.{
  ResponseType, success, ignore, dropped, returns, settle, report,
}
use go_concurrency_limits.Middleware.Http.{
  ResponseWriter, Handler, classify_status_code, write_header, write_headers, new_response_writer,
  default_server_response_classifier, serve_http,
}

-- The last of the codes, or the given one.
abbrev pub last_code : ℤ → List ℤ → ℤ
last_code code [] = code
last_code code (x ∷ codes) = last_code x codes

write_headers-status_code :
    {W : Type 0} (inner_write : ℤ → W → W) (codes : List ℤ) (rw' : ResponseWriter W)
    → (write_headers inner_write codes rw').status_code ≡ last_code rw'.status_code codes
unfolding write_headers write_header
write_headers-status_code inner_write [] rw' = refl
write_headers-status_code inner_write (code ∷ codes) rw' =
    write_headers-status_code inner_write codes (write_header inner_write code rw')

-- The class of a code.
abbrev pub IsClass : ℤ → ResponseType → Type 0
IsClass code r =
    ((code <ℤ pos 400) × (r ≡ success))
    ⊎ ((pos 400 ≤ℤ code) × (code <ℤ pos 500) × (code ≢ pos 429) × (r ≡ ignore))
    ⊎ (((code ≡ pos 429) ⊎ (pos 500 ≤ℤ code)) × (r ≡ dropped))

classify-IsClass : (code : ℤ) → IsClass code (classify_status_code code)
unfolding classify_status_code
classify-IsClass (pos n) = elim (Bool-cases (ltb n 400)) [
  | inl e ↦ inl (ground arith, ground arith)
  | inr e ↦ elim (Bool-cases (leb 500 n)) [
    | inl f ↦ inr (inr (inr (ground arith), ground arith))
    | inr f ↦ elim (Bool-cases (n == 429)) [
      | inl g ↦ inr (inr (inl (ap pos (ground arith)), ground arith))
      | inr g ↦ inr (inl (ground arith, ground arith, (λ h. ground arith), ground arith))
    ]
  ]
]
classify-IsClass (negsuc n) = inl (omega arith, ground arith)

module _ (d : Limiter) {W : Type 0} (inner_write : ℤ → W → W) where
  open d use {State, Ctx, Clock, Listener}

  -- The report that the code calls for: u is the limiter before it, and t after it.
  abbrev pub IsReported : Clock → Listener → ℤ → State → State → Type 0
  IsReported c token code u t =
      ((code <ℤ pos 400) × (t ≡ d.on_success c token u))
      ⊎ ((pos 400 ≤ℤ code) × (code <ℤ pos 500) × (code ≢ pos 429) × (t ≡ d.on_ignore c token u))
      ⊎ (((code ≡ pos 429) ⊎ (pos 500 ≤ℤ code)) × (t ≡ d.on_dropped c token u))

  report-IsReported :
      (c : Clock) (token : Listener) (code : ℤ) (r : ResponseType) (u : State)
      → IsClass code r
      → IsReported c token code u (report d c r token u)
  unfolding report
  report-IsReported c token code r u (inl (a, e)) = inl (a, ap (λ x. report d c x token u) e)
  report-IsReported c token code r u (inr (inl (a, b, n, e))) =
      inr (inl (a, b, n, ap (λ x. report d c x token u) e))
  report-IsReported c token code r u (inr (inr (a, e))) =
      inr (inr (a, ap (λ x. report d c x token u) e))

  -- With the default classifier, a granted request whose handler returns calls one method of its token,
  -- by the last status code that the handler wrote, or 200 if it wrote none: OnSuccess below 400,
  -- OnDropped for 429 and from 500 on, and OnIgnore for the others.
  pub serve_http_default :
      (E : Type 0) (c c' : Clock) (exceeded : W → W) (codes : List ℤ) (ctx : Ctx) (w : W)
      (s : State) (token : Listener)
      → (d.acquire c ctx s).1 ≡ some token
      → let next : Handler = record { codes = codes; end = returns tt } in
        IsReported c' token
          (last_code (pos 200) codes)
          (d.acquire c ctx s).0
          (serve_http d inner_write c c'
            (λ rw'. default_server_response_classifier {E = E} rw' none)
            exceeded
            next
            ctx
            w
            s).limiter
  unfolding serve_http settle default_server_response_classifier
  serve_http_default E c c' exceeded codes ctx w s token e =
      let code = (write_headers inner_write codes (new_response_writer w)).status_code in
      let class =
        subst (λ z. IsClass z (classify_status_code code))
          (write_headers-status_code inner_write codes (new_response_writer w))
          (classify-IsClass code) in
      rw (e, serve_http)
        (report-IsReported c' token (last_code (pos 200) codes) (classify_status_code code)
          (d.acquire c ctx s).0 class)
