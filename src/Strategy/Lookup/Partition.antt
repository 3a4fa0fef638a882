-- ===== src/Strategy/Lookup/Partition.antt =====
-- strategy/lookup_partition.go: LookupPartition, one bin of the strategy.
use Prim.Native.String.{String}
use go_concurrency_limits.Base.{Bool, if◌then◌else◌}
use go_concurrency_limits.Base.Int.{ℤ, pos, int32, ◌+ℤ◌, ◌-ℤ◌, ltb_ℤ, leb_ℤ}
use go_concurrency_limits.Base.Float.{Float64}

pub record LookupPartition (F : Type 0) : Type 0 where
  pub name : String
  pub percent : F
  pub limit : ℤ  -- int32
  pub busy : ℤ  -- int32

unfoldable pub new_lookup_partition : {F : Type 0} → String → F → ℤ → LookupPartition F
new_lookup_partition name percent limit = record {
  name = name;
  percent = percent;
  limit = if ltb_ℤ limit (pos 1) then pos 1 else limit;
  busy = pos 0;
}

unfoldable pub update_limit : (fl : Float64) → ℤ → LookupPartition fl.F → LookupPartition fl.F
update_limit fl total_limit p = record p {
  limit = int32 (to_int (fmax (of_int (pos 1)) (ceil (fmul (of_int total_limit) p.percent))));
}
  where
    open fl use {to_int, of_int, fmax, ceil, fmul}

unfoldable pub is_limit_exceeded : {F : Type 0} → LookupPartition F → Bool
is_limit_exceeded p = leb_ℤ p.limit p.busy

unfoldable pub partition_acquire : {F : Type 0} → LookupPartition F → LookupPartition F
partition_acquire p = record p { busy = int32 (p.busy +ℤ pos 1) }

unfoldable pub partition_release : {F : Type 0} → LookupPartition F → LookupPartition F
partition_release p = record p { busy = int32 (p.busy -ℤ pos 1) }

unfoldable pub busy_count : {F : Type 0} → LookupPartition F → ℤ
busy_count p = p.busy
