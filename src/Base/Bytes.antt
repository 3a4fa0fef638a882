-- ===== src/Base/Bytes.antt =====
-- Go's strings, as the list of their bytes, and what package strings does to them.
use go_concurrency_limits.Base.Tests.{◌==◌, if◌then◌else◌}
use mathlib.Core.Path.{◌≡◌, refl, ap, ◌∙◌}
use native.Mathlib.Omega.{arith}
use Prim.Native.Nat.{ℕ}
use mathlib.Core.Bool.{Bool, true, false, ◌&&◌}
use mathlib.Core.List.{List, [], ◌∷◌}

abbrev pub Bytes : Type 0
Bytes = List ℕ

abbrev pub bytes_eq : Bytes → Bytes → Bool
bytes_eq [] [] = true
bytes_eq (a ∷ s) (b ∷ t) = (a == b) && bytes_eq s t
bytes_eq _ _ = false

abbrev pub dot : ℕ
dot = 46

-- strings.TrimPrefix(s, ".")
abbrev pub trim_dot : Bytes → Bytes
trim_dot [] = []
trim_dot (b ∷ s) = if b == dot then s else b ∷ s

-- strings.HasSuffix(s, ".")
abbrev pub ends_in_dot : Bytes → Bool
ends_in_dot [] = false
ends_in_dot (b ∷ []) = b == dot
ends_in_dot (b ∷ c ∷ s) = ends_in_dot (c ∷ s)

-- strings.ReplaceAll(s, from, to) for texts of one byte
abbrev pub replace_all : ℕ → ℕ → Bytes → Bytes
replace_all from to [] = []
replace_all from to (b ∷ s) =
    let rest = replace_all from to s in if b == from then to ∷ rest else b ∷ rest

pub bytes_eq_refl : (s : Bytes) → bytes_eq s s ≡ true
bytes_eq_refl [] = refl
bytes_eq_refl (b ∷ s) = rw (bytes_eq_refl s) (ground arith)

pub bytes_eq→eq : (s t : Bytes) → bytes_eq s t ≡ true → s ≡ t
bytes_eq→eq [] [] h = refl
bytes_eq→eq [] (c ∷ t) h = absurd (ground arith)
bytes_eq→eq (b ∷ s) [] h = absurd (ground arith)
bytes_eq→eq (b ∷ s) (c ∷ t) h =
    let head : b ≡ c = ground arith in
    let tail : bytes_eq s t ≡ true = ground arith in
    ap (λ x. x ∷ s) head ∙ ap (λ u. c ∷ u) (bytes_eq→eq s t tail)
