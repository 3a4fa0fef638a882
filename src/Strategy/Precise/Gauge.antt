-- ===== src/Strategy/Precise/Gauge.antt =====
-- What PreciseStrategy promises, as a gauge: a number of held slots under a bound.
use go_concurrency_limits.Base.{
  ℕ, ◌+◌, ◌-◌, ◌≤◌, ◌<◌, ◌≡◌, ◌∙◌, ap, sym, Bool, true, false, List, [], ◌∷◌, arith, ltb,
  if◌then◌else◌, All,
}
use go_concurrency_limits.Base.Int.{
  pos, two_31, int32_inc, int32_dec, at_least_one, int32-at_least_one,
}
use go_concurrency_limits.Strategy.Precise.{
  PreciseStrategy, new_precise_strategy, try_acquire, release_handler, set_limit, get_busy_count,
}

pub record Gauge : Type 0 where
  pub held : ℕ
  pub bound : ℕ

-- A call, by clients that give back only what they hold.
pub data Call : Type 0 where
  acquires releases : Call
  resizes : ℕ → Call

-- What each call does to the gauge, and whether it succeeds.
abbrev pub gauge_step : Call → Gauge → Gauge × Bool
gauge_step acquires g =
    if ltb g.held g.bound then (record g { held = g.held + 1 }, true) else (g, false)
gauge_step releases g = if ltb 0 g.held then (record g { held = g.held - 1 }, true) else (g, false)
gauge_step (resizes l) g = (record g { bound = at_least_one l }, true)

-- The strategy with the number of tokens that its clients hold.
pub record Session : Type 0 where
  pub tokens : ℕ
  pub strategy : PreciseStrategy

unfoldable pub session_step : Call → Session → Session × Bool
session_step acquires c =
    let (s, token, granted) = try_acquire c.strategy in
    (record { tokens = if granted then c.tokens + 1 else c.tokens; strategy = s }, granted)
session_step releases c =
    if ltb 0 c.tokens
    then (record { tokens = c.tokens - 1; strategy = release_handler c.strategy }, true)
    else (c, false)
session_step (resizes l) c = (record c { strategy = set_limit (pos l) c.strategy }, true)

unfoldable pub session_run : List Call → Session → Session
session_run [] c = c
session_run (call ∷ calls) c = session_run calls (session_step call c).0

abbrev pub gauge_run : List Call → Gauge → Gauge
gauge_run [] g = g
gauge_run (call ∷ calls) g = gauge_run calls (gauge_step call g).0

pub record Refines (c : Session) (g : Gauge) : Type 0 where
  pub tokens : c.tokens ≡ g.held
  pub in_flight : c.strategy.in_flight ≡ pos g.held
  pub limit : c.strategy.limit ≡ pos g.bound
  pub held_small : g.held < two_31
  pub bound_small : g.bound < two_31

-- A new limit is representable.
abbrev pub IsSmall : Call → Type 0
IsSmall acquires = Unit
IsSmall releases = Unit
IsSmall (resizes l) = l < two_31

-- Every call answers as the gauge does and keeps the two in step: nothing wraps around.
pub session_step-Refines :
    (call : Call) (c : Session) (g : Gauge)
    → IsSmall call
    → Refines c g
    → Refines (session_step call c).0 (gauge_step call g).0
      × ((session_step call c).1 ≡ (gauge_step call g).1)
unfolding session_step try_acquire release_handler set_limit
session_step-Refines acquires c g small r = ground (arith, int32_inc g.held)
session_step-Refines releases c g small r = ground (arith, int32_dec g.held)
session_step-Refines (resizes l) c g small r = ground (arith, int32-at_least_one l small)

-- So do all histories.
pub session_run-Refines :
    (calls : List Call) (c : Session) (g : Gauge)
    → All IsSmall calls
    → Refines c g
    → Refines (session_run calls c) (gauge_run calls g)
unfolding session_run
session_run-Refines [] c g small r = r
session_run-Refines (call ∷ calls) c g small r =
    session_run-Refines calls _ _ small.1 (session_step-Refines call c g small.0 r).0

abbrev pub new_session : ℕ → Session
new_session l = record { tokens = 0; strategy = new_precise_strategy (pos l) }

new_session-Refines :
    (l : ℕ) → l < two_31 → Refines (new_session l) (record { held = 0; bound = at_least_one l })
unfolding new_precise_strategy
new_session-Refines l h = ground (arith, int32-at_least_one l h)

-- No new limit is above the cap.
abbrev pub IsCapped : ℕ → Call → Type 0
IsCapped cap acquires = Unit
IsCapped cap releases = Unit
IsCapped cap (resizes l) = l ≤ cap

gauge_run_capped :
    (cap : ℕ) (calls : List Call) (g : Gauge)
    → 1 ≤ cap
    → All (IsCapped cap) calls
    → (g.held ≤ cap) × (g.bound ≤ cap)
    → (gauge_run calls g).held ≤ cap
gauge_run_capped cap [] g one capped b = b.0
gauge_run_capped cap (acquires ∷ calls) g one capped b =
    gauge_run_capped cap calls _ one capped.1 (ground arith)
gauge_run_capped cap (releases ∷ calls) g one capped b =
    gauge_run_capped cap calls _ one capped.1 (ground arith)
gauge_run_capped cap (resizes l ∷ calls) g one capped b =
    gauge_run_capped cap calls _ one capped.1 (ground arith)

IsCapped-IsSmall :
    (cap : ℕ) (calls : List Call) → cap < two_31 → All (IsCapped cap) calls → All IsSmall calls
IsCapped-IsSmall cap [] h a = tt
IsCapped-IsSmall cap (acquires ∷ calls) h a = (tt, IsCapped-IsSmall cap calls h a.1)
IsCapped-IsSmall cap (releases ∷ calls) h a = (tt, IsCapped-IsSmall cap calls h a.1)
IsCapped-IsSmall cap (resizes l ∷ calls) h a = (omega arith, IsCapped-IsSmall cap calls h a.1)

-- From a new strategy and after any history in which no limit is above cap (cap at least 1 and an
-- int32), the busy count is the number of tokens that the clients hold, and is at most cap.
pub session_run_capped :
    (cap l : ℕ) (calls : List Call)
    → 1 ≤ cap
    → cap < two_31
    → l ≤ cap
    → All (IsCapped cap) calls
    → let c = session_run calls (new_session l) in
      (get_busy_count c.strategy ≡ pos c.tokens) × (c.tokens ≤ cap)
unfolding get_busy_count
session_run_capped cap l calls one small lo capped =
    let g : Gauge = record { held = 0; bound = at_least_one l } in
    let r =
      session_run-Refines calls (new_session l) g (IsCapped-IsSmall cap calls small capped)
        (new_session-Refines l (omega arith)) in
    let b = gauge_run_capped cap calls g one capped (ground arith) in
    (r.in_flight ∙ ap pos (sym r.tokens), omega (arith, r.tokens))
