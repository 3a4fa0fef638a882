-- ===== src/Limit/Functions.antt =====
-- limit/functions/: the sizes of queues as functions of the limit, with tables that init.go fills.
-- strconv.Atoi and the roots of package math are parameters; none is a panic.
pub mod Tables
use go_concurrency_limits.Base.{
  ℕ, zero, suc, ◌+◌, ◌-◌, Bool, Option, none, some, List, [], ◌∷◌, ◌++◌, if◌then◌else◌, ◌>>=◌,
  length, get_elem?,
}
use go_concurrency_limits.Base.Int.{ℤ, pos, negsuc, ltb_ℤ, int64, ◌+ℤ◌, pos_part}
use go_concurrency_limits.Base.Bytes.{Bytes}
use go_concurrency_limits.Base.Float.{Float64}

-- dep.go
unfoldable pub max : ℤ → ℤ → ℤ
max a b = if ltb_ℤ b a then a else b

-- fixed.go
abbrev pub fixed_queue_size_func : ℤ → ℤ → ℤ
fixed_queue_size_func queue_size limit = queue_size

-- The number of entries: the environment's variable, if it is a number of 1000 or more, else 1000.
-- The bytes of "1000".
abbrev pub default_text : Bytes
default_text = 49 ∷ 48 ∷ 48 ∷ 48 ∷ []

abbrev pub size_or_default : Option ℤ → ℤ
size_or_default none = pos 1000
size_or_default (some n) = if ltb_ℤ n (pos 1000) then pos 1000 else n

unfoldable pub table_size : (Bytes → Option ℤ) → Option Bytes → ℤ
table_size atoi variable =
    size_or_default (atoi (elim variable [ none ↦ default_text | some text ↦ text ]))

-- An index into a slice; below 0 and from the length on it panics.
abbrev pub index : List ℤ → ℤ → Option ℤ
index table (pos n) = get_elem? table n
index table (negsuc n) = none

module _ (fl : Float64) where
  open fl use {F, of_int, to_int, fadd, fmax}

  -- int(math.Max(1, float64(int(root(float64(i))))))
  unfoldable pub entry : (F → F) → ℕ → ℤ
  entry root i = to_int (fmax (of_int (pos 1)) (of_int (to_int (root (of_int (pos i))))))

  -- for i := 0; i < val; i++, with the iterations left and the slice so far.
  unfoldable pub fill : (F → F) → ℕ → List ℤ → List ℤ
  unfolding entry
  fill root zero table = table
  fill root (suc n) table = fill root n (table ++ (entry root (length table) ∷ []))

  -- initSqrtFunc and initLog10RootFunc, by the root.
  unfoldable pub init_table : (F → F) → (Bytes → Option ℤ) → Option Bytes → List ℤ
  unfolding fill table_size
  init_table root atoi variable = fill root (pos_part (table_size atoi variable)) []

  -- SqrtRootFunction(baseline), over the table.
  unfoldable pub sqrt_root_function : (F → F) → List ℤ → ℤ → ℤ → Option ℤ
  unfolding max
  sqrt_root_function sqrt table baseline limit =
      if ltb_ℤ limit (pos (length table))
      then index table limit >>= (λ n. some (max baseline n))
      else some (max baseline (to_int (sqrt (of_int limit))))

  unfoldable pub log10_root_function : (F → F) → List ℤ → ℤ → ℤ → Option ℤ
  log10_root_function log10 table baseline limit =
      if ltb_ℤ limit (pos (length table))
      then index table limit >>= (λ n. some (int64 (baseline +ℤ n)))
      else some (int64 (baseline +ℤ to_int (log10 (of_int limit))))

  unfoldable pub log10_root_float_function : (F → F) → List ℤ → F → F → Option F
  log10_root_float_function log10 table baseline limit =
      if ltb_ℤ (to_int limit) (pos (length table))
      then index table (to_int limit) >>= (λ n. some (fadd baseline (of_int n)))
      else some (fadd baseline (log10 limit))
