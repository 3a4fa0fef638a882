-- ===== src/Tests/Floats.antt =====
-- A number type for the tests in the place of float64: thousandths from 0 up, and NaN (none).
use go_concurrency_limits.Base.{
  ℕ, zero, suc, ◌+◌, ◌*◌, ◌≤◌, ◌<◌, ◌≡◌, refl, Bool, true, false, Option, none, some, arith, ltb,
  leb, ◌==◌, if◌then◌else◌,
}
use Prim.Native.Nat.{◌-◌, ◌/◌}
use go_concurrency_limits.Base.Int.{ℤ, pos, negsuc, pos_part}
use go_concurrency_limits.Base.Float.{Float64, IsIeee}

abbrev lift : (ℕ → ℕ → Option ℕ) → Option ℕ → Option ℕ → Option ℕ
lift f none y = none
lift f (some a) none = none
lift f (some a) (some b) = f a b

abbrev test : (ℕ → ℕ → Bool) → Option ℕ → Option ℕ → Bool
test f none y = false
test f (some a) none = false
test f (some a) (some b) = f a b

abbrev quotient : ℕ → ℕ → Option ℕ
quotient a zero = none
quotient a (suc b) = some (a * 1000 / suc b)

abbrev whole : Option ℕ → ℤ
whole none = negsuc 2147483647
whole (some a) = pos (a / 1000)

abbrev round_up : Option ℕ → Option ℕ
round_up none = none
round_up (some a) = some ((a + 999) / 1000 * 1000)

abbrev pub thousandths : Float64
thousandths = record {
  F = Option ℕ;
  of_int = λ n. some (pos_part n * 1000);
  ratio = λ n d. quotient n d;
  to_int = whole;
  fadd = lift (λ a b. some (a + b));
  fsub = lift (λ a b. some (a - b));
  fmul = lift (λ a b. some (a * b / 1000));
  fdiv = lift quotient;
  fmax = lift (λ a b. some (if leb a b then b else a));
  fmin = lift (λ a b. some (if leb a b then a else b));
  ceil = round_up;
  flt = test ltb;
  fle = test leb;
  feq = test (λ a b. a == b);
}

mul_le_lem :
    (n : ℕ) (p : Option ℕ)
    → thousandths.fle (thousandths.of_int (pos 0)) p ≡ true
    → thousandths.fle p (thousandths.of_int (pos 1)) ≡ true
    → thousandths.fle (round_up (thousandths.fmul (some (n * 1000)) p)) (some (n * 1000)) ≡ true
mul_le_lem n none a b = absurd (ground arith)
mul_le_lem n (some p) a b =
    let small : p ≤ 1000 = ground arith in
    let le : n * 1000 * p ≤ n * 1000 * 1000 = grind arith in ground arith

max_le_lem :
    (x y z : Option ℕ)
    → thousandths.fle x z ≡ true
    → thousandths.fle y z ≡ true
    → thousandths.fle (thousandths.fmax x y) z ≡ true
max_le_lem none y z a b = absurd (ground arith)
max_le_lem (some x) none z a b = absurd (ground arith)
max_le_lem (some x) (some y) none a b = absurd (ground arith)
max_le_lem (some x) (some y) (some z) a b = ground arith

max_nan_ratio_lem :
    (a b : ℕ) (y : Option ℕ)
    → 0 < b
    → a ≤ b
    → thousandths.fle y y ≡ false
    → thousandths.fle (thousandths.fmax (quotient a b) y) (thousandths.fmax (quotient a b) y)
      ≡ false
max_nan_ratio_lem a zero y h k n = absurd (omega arith)
max_nan_ratio_lem a (suc b) y h k n = ground arith

pub thousandths-IsIeee : IsIeee thousandths
thousandths-IsIeee = record {
  le_trans = λ x y z a b. ground arith;
  number_of_le = λ x y a. ground arith;
  of_int_mono = λ m n h. ground arith;
  max_left = λ x y a b. ground arith;
  max_right = λ x y a b. ground arith;
  max_le = max_le_lem;
  min_left = λ x y a b. ground arith;
  le_min = λ x y z a b. ground arith;
  max_nan = λ m y a. ground arith;
  max_nan_ratio = max_nan_ratio_lem;
  min_nan = λ m y a. ground arith;
  add_nan_left = λ x y a. ground arith;
  add_nan_right = λ x y a. ground arith;
  mul_nan_left = λ x y a. ground arith;
  mul_nan_right = λ x y a. ground arith;
  div_nan_left = λ x y a. ground arith;
  lt_nan_right = λ x y a. ground arith;
  one_sub_one = refl;
  zero_mul = λ n x a b. ground arith;
  one_mul = λ x a. ground arith;
  zero_add = λ x a. ground arith;
  zero_add_zero = refl;
  zero_div_one = refl;
  zero_div_zero = refl;
  mul_le = λ n p s a b. mul_le_lem n p a b;
  to_int_bounds = λ m n x s a b. ground arith;
}
