-- ===== src/Limit/Fixed.antt =====
-- limit/fixed.go and limit/settable.go: limits that no sample changes.
use go_concurrency_limits.Base.{if◌then◌else◌}
use go_concurrency_limits.Base.Int.{ℤ, pos, int32, ltb_ℤ}
use go_concurrency_limits.Limit.Interface.{Limit}

pub record FixedLimit : Type 0 where
  pub limit : ℤ

unfoldable pub new_fixed_limit : ℤ → FixedLimit
new_fixed_limit limit = record { limit = if ltb_ℤ limit (pos 0) then pos 10 else limit }

abbrev pub fixed_limit : Limit
fixed_limit = record {
  State = FixedLimit;
  estimated_limit = λ l. l.limit;
  on_sample = λ start_time rtt in_flight did_drop l. l;
}

pub record SettableLimit : Type 0 where
  pub limit : ℤ  -- int32

unfoldable pub new_settable_limit : ℤ → SettableLimit
new_settable_limit limit = record { limit = int32 (if ltb_ℤ limit (pos 0) then pos 10 else limit) }

unfoldable pub set_limit : ℤ → SettableLimit → SettableLimit
set_limit limit l = record { limit = int32 limit }

abbrev pub settable_limit : Limit
settable_limit = record {
  State = SettableLimit;
  estimated_limit = λ l. l.limit;
  on_sample = λ start_time rtt in_flight did_drop l. l;
}
