-- ===== src/Strategy/Predicate/Partition.antt =====
-- strategy/predicate_partition.go: PredicatePartition, one bin of the strategy.
use Prim.Native.String.{String}
use go_concurrency_limits.Base.{Bool}
use go_concurrency_limits.Base.Int.{ℤ, pos, int32, ◌+ℤ◌, ◌-ℤ◌, leb_ℤ}
use go_concurrency_limits.Base.Float.{Float64}

-- C stands for context.Context, F for float64.
pub record PredicatePartition (F C : Type 0) : Type 0 where
  pub name : String
  pub percent : F
  pub predicate : C → Bool
  pub limit : ℤ  -- int32
  pub busy : ℤ  -- int32

unfoldable pub new_predicate_partition :
    {F C : Type 0} → String → F → (C → Bool) → PredicatePartition F C
new_predicate_partition name percent predicate = record {
  name = name;
  percent = percent;
  predicate = predicate;
  limit = pos 1;
  busy = pos 0;
}

unfoldable pub update_limit :
    (fl : Float64) {C : Type 0} → ℤ → PredicatePartition fl.F C → PredicatePartition fl.F C
update_limit fl total_limit p = record p {
  limit = int32 (to_int (fmax (of_int (pos 1)) (ceil (fmul (of_int total_limit) p.percent))));
}
  where
    open fl use {to_int, of_int, fmax, ceil, fmul}

module _ {F C : Type 0} where
  unfoldable pub is_limit_exceeded : PredicatePartition F C → Bool
  is_limit_exceeded p = leb_ℤ p.limit p.busy

  unfoldable pub partition_acquire : PredicatePartition F C → PredicatePartition F C
  partition_acquire p = record p { busy = int32 (p.busy +ℤ pos 1) }

  unfoldable pub partition_release : PredicatePartition F C → PredicatePartition F C
  partition_release p = record p { busy = int32 (p.busy -ℤ pos 1) }
