-- ===== src/Limiter/Interface.antt =====
-- core/limit.go: the interfaces Limiter and Listener, as a limiter that wraps another sees them. The
-- clock's readings during a call are an argument.
use go_concurrency_limits.Base.{ℕ, ◌+◌, ◌<◌, ◌≡◌, Option, none, some}

pub record Limiter : Type 1 where
  pub State : Type 0
  pub Ctx : Type 0
  pub Listener : Type 0
  pub Clock : Type 0
  pub acquire : Clock → Ctx → State → State × Option Listener
  pub on_success : Clock → Listener → State → State
  pub on_ignore : Clock → Listener → State → State
  pub on_dropped : Clock → Listener → State → State

-- What a wrapping limiter relies on: in a good state slots counts the listeners that are out, and a
-- report by a listener that was granted gives its slot back.
pub record CountsSlots (d : Limiter) : Type 1 where
  pub slots : d.State → ℕ
  pub Good : d.State → Type 0
  pub Granted : d.Listener → Type 0
  pub acquire_none :
      (c : d.Clock) (x : d.Ctx) (s : d.State)
      → Good s
      → (d.acquire c x s).1 ≡ none
      → Good (d.acquire c x s).0 × (slots (d.acquire c x s).0 ≡ slots s)
  pub acquire_some :
      (c : d.Clock) (x : d.Ctx) (s : d.State) (h : d.Listener)
      → Good s
      → (d.acquire c x s).1 ≡ some h
      → Good (d.acquire c x s).0 × (slots (d.acquire c x s).0 ≡ slots s + 1) × Granted h
  pub success_slots :
      (c : d.Clock) (h : d.Listener) (s : d.State)
      → Good s
      → Granted h
      → 0 < slots s
      → Good (d.on_success c h s) × (slots (d.on_success c h s) + 1 ≡ slots s)
  pub ignore_slots :
      (c : d.Clock) (h : d.Listener) (s : d.State)
      → Good s
      → Granted h
      → 0 < slots s
      → Good (d.on_ignore c h s) × (slots (d.on_ignore c h s) + 1 ≡ slots s)
  pub dropped_slots :
      (c : d.Clock) (h : d.Listener) (s : d.State)
      → Good s
      → Granted h
      → 0 < slots s
      → Good (d.on_dropped c h s) × (slots (d.on_dropped c h s) + 1 ≡ slots s)
