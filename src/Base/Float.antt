-- ===== src/Base/Float.antt =====
-- Go's float64 as far as the program uses it. antt has no floats, so the type and its operations are
-- a parameter of the model; IsIeee holds the laws of IEEE 754 arithmetic that the theorems rely on.
use Prim.Native.Nat.{ℕ, ◌<◌, ◌≤◌}
use mathlib.Core.Path.{◌≡◌}
use mathlib.Core.Bool.{Bool, true, false}
use mathlib.Core.Logic.{◌⊎◌, inl, inr}
use go_concurrency_limits.Base.Tests.{Bool-cases}
use go_concurrency_limits.Base.Int.{ℤ, pos, two_31, ◌≤ℤ◌}

pub record Float64 : Type 1 where
  pub F : Type 0
  pub of_int : ℤ → F  -- float64(n), of the nearest int where none is n
  pub ratio : ℕ → ℕ → F  -- the constant n/d: 0.9 is ratio 9 10
  pub to_int : F → ℤ  -- int(x), int64(x), and int32(x) within its range
  pub fadd : F → F → F
  pub fsub : F → F → F
  pub fmul : F → F → F
  pub fdiv : F → F → F
  pub fmax : F → F → F  -- math.Max
  pub fmin : F → F → F  -- math.Min
  pub ceil : F → F  -- math.Ceil
  pub flt : F → F → Bool
  pub fle : F → F → Bool
  pub feq : F → F → Bool

-- x is ordered with y. No number is ordered with NaN.
abbrev pub Le : (fl : Float64) → fl.F → fl.F → Type 0
Le fl x y = fl.fle x y ≡ true

-- x is a number: NaN is not <= itself.
abbrev pub IsNumber : (fl : Float64) → fl.F → Type 0
IsNumber fl x = Le fl x x

abbrev pub IsNan : (fl : Float64) → fl.F → Type 0
IsNan fl x = fl.fle x x ≡ false

pub record IsIeee (fl : Float64) : Type 0 where
  -- The order, which NaN is not part of.
  pub le_trans : (x y z : fl.F) → Le fl x y → Le fl y z → Le fl x z
  pub number_of_le : (x y : fl.F) → Le fl x y → IsNumber fl x × IsNumber fl y
  pub of_int_mono : (m n : ℕ) → m ≤ n → Le fl (fl.of_int (pos m)) (fl.of_int (pos n))
  -- math.Max and math.Min of numbers are bounds.
  pub max_left : (x y : fl.F) → IsNumber fl x → IsNumber fl y → Le fl x (fl.fmax x y)
  pub max_right : (x y : fl.F) → IsNumber fl x → IsNumber fl y → Le fl y (fl.fmax x y)
  pub max_le : (x y z : fl.F) → Le fl x z → Le fl y z → Le fl (fl.fmax x y) z
  pub min_left : (x y : fl.F) → IsNumber fl x → IsNumber fl y → Le fl (fl.fmin x y) x
  pub le_min : (x y z : fl.F) → Le fl z x → Le fl z y → Le fl z (fl.fmin x y)
  -- NaN goes through math.Max and math.Min where the other argument is finite (an integer or a
  -- constant; of +Inf and NaN, math.Max makes +Inf), and through the arithmetic; 0/0 is NaN.
  pub max_nan : (m : ℤ) (y : fl.F) → IsNan fl y → IsNan fl (fl.fmax (fl.of_int m) y)
  pub max_nan_ratio :
      (a b : ℕ) (y : fl.F) → 0 < b → a ≤ b → IsNan fl y → IsNan fl (fl.fmax (fl.ratio a b) y)
  pub min_nan : (m : ℤ) (y : fl.F) → IsNan fl y → IsNan fl (fl.fmin (fl.of_int m) y)
  pub add_nan_left : (x y : fl.F) → IsNan fl x → IsNan fl (fl.fadd x y)
  pub add_nan_right : (x y : fl.F) → IsNan fl y → IsNan fl (fl.fadd x y)
  pub mul_nan_left : (x y : fl.F) → IsNan fl x → IsNan fl (fl.fmul x y)
  pub mul_nan_right : (x y : fl.F) → IsNan fl y → IsNan fl (fl.fmul x y)
  pub div_nan_left : (x y : fl.F) → IsNan fl x → IsNan fl (fl.fdiv x y)
  pub lt_nan_right : (x y : fl.F) → IsNan fl y → fl.flt x y ≡ false
  -- Exact operations on numbers from 1 to an integer.
  pub one_sub_one : fl.fsub (fl.of_int (pos 1)) (fl.of_int (pos 1)) ≡ fl.of_int (pos 0)
  pub zero_mul :
      (n : ℕ) (x : fl.F)
      → Le fl (fl.of_int (pos 1)) x
      → Le fl x (fl.of_int (pos n))
      → fl.fmul (fl.of_int (pos 0)) x ≡ fl.of_int (pos 0)
  pub one_mul : (x : fl.F) → IsNumber fl x → fl.fmul (fl.of_int (pos 1)) x ≡ x
  pub zero_add : (x : fl.F) → Le fl (fl.of_int (pos 1)) x → fl.fadd (fl.of_int (pos 0)) x ≡ x
  pub zero_add_zero : fl.fadd (fl.of_int (pos 0)) (fl.of_int (pos 0)) ≡ fl.of_int (pos 0)
  pub zero_div_one : fl.fdiv (fl.of_int (pos 0)) (fl.of_int (pos 1)) ≡ fl.of_int (pos 0)
  pub zero_div_zero : IsNan fl (fl.fdiv (fl.of_int (pos 0)) (fl.of_int (pos 0)))
  -- A factor in [0, 1] brings an integer of 32 bits down, and rounding up keeps it below.
  pub mul_le :
      (n : ℕ) (p : fl.F)
      → n < two_31
      → Le fl (fl.of_int (pos 0)) p
      → Le fl p (fl.of_int (pos 1))
      → Le fl (fl.ceil (fl.fmul (fl.of_int (pos n)) p)) (fl.of_int (pos n))
  -- The conversion of a number between two integers of 32 bits lies between them. (Of a number that
  -- no int holds, the conversion depends on the machine.)
  pub to_int_bounds :
      (m n : ℕ) (x : fl.F)
      → n < two_31
      → Le fl (fl.of_int (pos m)) x
      → Le fl x (fl.of_int (pos n))
      → (pos m ≤ℤ fl.to_int x) × (fl.to_int x ≤ℤ pos n)

-- For integers lo and hi, math.Max(lo, math.Min(hi, x)) is NaN where x is, and otherwise lies from lo
-- to any bound on lo and hi.
pub clamp_range :
    (fl : Float64) (ieee : IsIeee fl) (lo hi : ℤ) (top x : fl.F)
    → Le fl (fl.of_int lo) top
    → Le fl (fl.of_int hi) top
    → let y = fl.fmax (fl.of_int lo) (fl.fmin (fl.of_int hi) x) in
      IsNan fl y ⊎ (Le fl (fl.of_int lo) y × Le fl y top)
clamp_range fl ieee lo hi top x h k = elim (Bool-cases (fl.fle x x)) [
  | inl number ↦
      let below = ieee.min_left (fl.of_int hi) x (ieee.number_of_le _ top k).0 number in
      inr (
        ieee.max_left (fl.of_int lo) (fl.fmin (fl.of_int hi) x) (ieee.number_of_le _ top h).0
            (ieee.number_of_le _ _ below).0,
        ieee.max_le (fl.of_int lo) (fl.fmin (fl.of_int hi) x) top h
            (ieee.le_trans _ (fl.of_int hi) top below k),
      )
  | inr nan ↦ inl (ieee.max_nan lo _ (ieee.min_nan hi x nan))
]
