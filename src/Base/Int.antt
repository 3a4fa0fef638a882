-- ===== src/Base/Int.antt =====
-- The signed integers of Go. A value is an integer ℤ; int32 and int64 (Go's int is 64 bits wide)
-- bring the result of an operation back into range, as two's complement wraps.
use Prim.Native.Nat.{ℕ, suc, ◌+◌, ◌-◌, ◌*◌, ◌%◌, ◌≤◌, ◌<◌}
use mathlib.Core.Path.{◌≡◌, ◌∙◌, ap}
use mathlib.Core.Bool.{Bool, false}
use mathlib.Core.Logic.{◌≢◌, inl, inr}
use native.Mathlib.Omega.{arith}
use go_concurrency_limits.Base.Tests.{ltb, leb, if◌then◌else◌, Bool-cases}

-- `negsuc n` is -(n + 1).
pub data ℤ : Type 0 where
  pos : ℕ → ℤ
  negsuc : ℕ → ℤ

abbrev pub pos_part : ℤ → ℕ
pos_part (pos n) = n
pos_part (negsuc n) = 0

abbrev pub neg_part : ℤ → ℕ
neg_part (pos n) = 0
neg_part (negsuc n) = suc n

-- a - b, as an integer.
abbrev pub sub_ℕ : ℕ → ℕ → ℤ
sub_ℕ a b = if leb b a then pos (a - b) else negsuc (b - a - 1)

infixl 65 ◌+ℤ◌ ◌-ℤ◌
infix 50 ◌≤ℤ◌ ◌<ℤ◌
abbrev pub ◌+ℤ◌ : ℤ → ℤ → ℤ
a +ℤ b = sub_ℕ (pos_part a + pos_part b) (neg_part a + neg_part b)

abbrev pub ◌-ℤ◌ : ℤ → ℤ → ℤ
a -ℤ b = sub_ℕ (pos_part a + neg_part b) (neg_part a + pos_part b)

-- n * a, for a constant n.
abbrev pub times : ℕ → ℤ → ℤ
times n a = sub_ℕ (n * pos_part a) (n * neg_part a)

abbrev pub ◌≤ℤ◌ : ℤ → ℤ → Type 0
a ≤ℤ b = pos_part a + neg_part b ≤ pos_part b + neg_part a

abbrev pub ◌<ℤ◌ : ℤ → ℤ → Type 0
a <ℤ b = pos_part a + neg_part b < pos_part b + neg_part a

abbrev pub ltb_ℤ : ℤ → ℤ → Bool
ltb_ℤ a b = ltb (pos_part a + neg_part b) (pos_part b + neg_part a)

abbrev pub leb_ℤ : ℤ → ℤ → Bool
leb_ℤ a b = leb (pos_part a + neg_part b) (pos_part b + neg_part a)

abbrev pub eqb_ℤ : ℤ → ℤ → Bool
eqb_ℤ a b = if leb_ℤ a b then leb_ℤ b a else false

-- The representative of z modulo 2 * half, from 0 on.
residue : ℕ → ℤ → ℕ
residue half (pos n) = n % (2 * half)
residue half (negsuc n) = 2 * half - 1 - n % (2 * half)

-- Two's complement: the value in [-half, half) that is congruent to z modulo 2 * half.
wrap : ℕ → ℤ → ℤ
unfolding residue
wrap half z = let r = residue half z in if ltb r half then pos r else negsuc (2 * half - 1 - r)

abbrev pub two_31 : ℕ
two_31 = 2147483648

abbrev pub two_63 : ℕ
two_63 = 9223372036854775808

unfoldable pub int32 : ℤ → ℤ
unfolding wrap
int32 = wrap two_31

unfoldable pub int64 : ℤ → ℤ
unfolding wrap
int64 = wrap two_63

-- z lies in the range of a signed integer of that width.
abbrev pub Fits : ℕ → ℤ → Type 0
Fits half z = (pos_part z < half) × (neg_part z ≤ half)

pub int32-eq_of_Fits : (z : ℤ) → Fits two_31 z → int32 z ≡ z
unfolding int32
int32-eq_of_Fits (pos n) f = ground arith
int32-eq_of_Fits (negsuc n) f = ground arith

pub int32-Fits : (z : ℤ) → Fits two_31 (int32 z)
unfolding int32
int32-Fits (pos n) = ground arith
int32-Fits (negsuc n) = ground arith

pub int64-eq_of_Fits : (z : ℤ) → Fits two_63 z → int64 z ≡ z
unfolding int64
int64-eq_of_Fits (pos n) f = ground arith
int64-eq_of_Fits (negsuc n) f = ground arith

pub int64-Fits : (z : ℤ) → Fits two_63 (int64 z)
unfolding int64
int64-Fits (pos n) = ground arith
int64-Fits (negsuc n) = ground arith

pub +ℤ_pos : (m n : ℕ) → pos m +ℤ pos n ≡ pos (m + n)
+ℤ_pos m n = ground arith

pub -ℤ_pos_one : (n : ℕ) → 0 < n → pos n -ℤ pos 1 ≡ pos (n - 1)
-ℤ_pos_one n h = ground arith

-- A counter goes up and down by one without leaving its range.
pub int32_inc : (n : ℕ) → n + 1 < two_31 → int32 (pos n +ℤ pos 1) ≡ pos (n + 1)
int32_inc n h = ap int32 (+ℤ_pos n 1) ∙ int32-eq_of_Fits (pos (n + 1)) (omega arith)

pub int32_dec : (n : ℕ) → 0 < n → n < two_31 → int32 (pos n -ℤ pos 1) ≡ pos (n - 1)
int32_dec n h k = ap int32 (-ℤ_pos_one n h) ∙ int32-eq_of_Fits (pos (n - 1)) (omega arith)

pub int64_inc : (n : ℕ) → n + 1 < two_63 → int64 (pos n +ℤ pos 1) ≡ pos (n + 1)
int64_inc n h = ap int64 (+ℤ_pos n 1) ∙ int64-eq_of_Fits (pos (n + 1)) (omega arith)

pub int64_dec : (n : ℕ) → 0 < n → n < two_63 → int64 (pos n -ℤ pos 1) ≡ pos (n - 1)
int64_dec n h k = ap int64 (-ℤ_pos_one n h) ∙ int64-eq_of_Fits (pos (n - 1)) (omega arith)

-- if limit < 1 { limit = 1 }
abbrev pub at_least_one : ℕ → ℕ
at_least_one l = if ltb l 1 then 1 else l

pub int32-at_least_one :
    (l : ℕ)
    → l < two_31
    → int32 (if ltb_ℤ (pos l) (pos 1) then pos 1 else pos l) ≡ pos (at_least_one l)
int32-at_least_one l h = ground (arith, int32-eq_of_Fits (pos 1), int32-eq_of_Fits (pos l))

pub eqb_ℤ_ne : (a b : ℤ) → a ≢ b → eqb_ℤ a b ≡ false
eqb_ℤ_ne a b h = elim (Bool-cases (eqb_ℤ a b)) [ inl e ↦ absurd (h (ground arith)) | inr e ↦ e ]
