-- ===== src/Limit/Functions/Tables.antt =====
-- The tables hold what the functions compute without them.
use go_concurrency_limits.Base.{
  ℕ, zero, suc, ◌+◌, ◌≤◌, ◌<◌, ◌≡◌, refl, sym, ap, subst, ◌∙◌, true, false, Bool-cases, Option,
  none, some, List, [], ◌∷◌, ◌++◌, inl, inr, arith, length, get_elem?, length-append,
  get_elem?-append_length, ltb, ltb→lt,
}
use go_concurrency_limits.Base.Int.{ℤ, pos, negsuc, ltb_ℤ, int64, ◌+ℤ◌, pos_part, ◌≤ℤ◌}
use go_concurrency_limits.Base.Bytes.{Bytes}
use go_concurrency_limits.Base.Float.{Float64}
use go_concurrency_limits.Limit.Functions.{
  max, entry, fill, init_table, table_size, default_text, size_or_default, sqrt_root_function,
  log10_root_function,
}

max_absorb : (a m : ℤ) → pos 1 ≤ℤ a → max a (max (pos 1) m) ≡ max a m
unfolding max
max_absorb (pos a) (pos m) h = ground arith
max_absorb (pos a) (negsuc m) h = ground arith
max_absorb (negsuc a) m h = absurd (omega arith)

max_one : (m : ℤ) → pos 1 ≤ℤ m → max (pos 1) m ≡ m
unfolding max
max_one (pos m) h = ground arith
max_one (negsuc m) h = absurd (omega arith)

last_index : (n m i : ℕ) → m ≡ n + 1 → i < m → ltb i n ≡ false → n ≡ i
last_index n m i e lt h = ground arith

get_elem?-append_lt :
    {A : Type 0} (xs ys : List A) (i : ℕ) → i < length xs → get_elem? (xs ++ ys) i ≡ get_elem? xs i
get_elem?-append_lt [] ys i h = absurd (omega arith)
get_elem?-append_lt (x ∷ xs) ys zero h = refl
get_elem?-append_lt (x ∷ xs) ys (suc i) h = get_elem?-append_lt xs ys i (omega arith)

table_size-ge :
    (atoi : Bytes → Option ℤ) (variable : Option Bytes) → 1000 ≤ pos_part (table_size atoi variable)
unfolding table_size
table_size-ge atoi variable = size (atoi (elim variable [ none ↦ default_text | some text ↦ text ]))
  where
    size : (o : Option ℤ) → 1000 ≤ pos_part (size_or_default o)
    size none = omega arith
    size (some (pos n)) = ground arith
    size (some (negsuc n)) = ground arith

module _ (fl : Float64) where
  open fl use {F, of_int, to_int, fmax}

  -- The entries of a table.
  abbrev IsTable : (F → F) → List ℤ → Type 0
  IsTable root table = (i : ℕ) → i < length table → get_elem? table i ≡ some (entry fl root i)

  append-IsTable :
      (root : F → F) (table : List ℤ)
      → IsTable root table
      → IsTable root (table ++ (entry fl root (length table) ∷ []))
  append-IsTable root table h i lt =
      let last = entry fl root (length table) ∷ [] in
      elim (Bool-cases (ltb i (length table))) [
        | inl e ↦
            get_elem?-append_lt table last i (ltb→lt i (length table) e)
            ∙ h i (ltb→lt i (length table) e)
        | inr e ↦
            subst (λ j. get_elem? (table ++ last) j ≡ some (entry fl root j))
              (last_index (length table) (length (table ++ last)) i (length-append table last) lt e)
              (get_elem?-append_length table (entry fl root (length table)))
      ]

  fill-IsTable :
      (root : F → F) (n : ℕ) (table : List ℤ)
      → IsTable root table
      → IsTable root (fill fl root n table) × (length (fill fl root n table) ≡ length table + n)
  unfolding fill
  fill-IsTable root zero table h = (h, omega arith)
  fill-IsTable root (suc n) table h =
      let last = entry fl root (length table) ∷ [] in
      let k = length-append table last in
      let (t, l) = fill-IsTable root n (table ++ last) (append-IsTable root table h) in
      (t, omega arith)

  init_table-IsTable :
      (root : F → F) (atoi : Bytes → Option ℤ) (variable : Option Bytes)
      → IsTable root (init_table fl root atoi variable)
        × (1000 ≤ length (init_table fl root atoi variable))
  unfolding init_table
  init_table-IsTable root atoi variable =
      let (t, l) =
        fill-IsTable root (pos_part (table_size atoi variable)) [] (λ i lt. absurd (omega arith)) in
      let size = table_size-ge atoi variable in (t, omega arith)

  -- The conversions and math.Max are exact on the roots.
  abbrev pub IsExact : (F → F) → Type 0
  IsExact root =
      (i : ℕ)
      → to_int (fmax (of_int (pos 1)) (of_int (to_int (root (of_int (pos i))))))
        ≡ max (pos 1) (to_int (root (of_int (pos i))))

  looked_up :
      (root : F → F) (table : List ℤ) (n : ℕ)
      → IsTable root table
      → IsExact root
      → ltb_ℤ (pos n) (pos (length table)) ≡ true
      → get_elem? table n ≡ some (max (pos 1) (to_int (root (of_int (pos n)))))
  unfolding entry
  looked_up root table n t exact e = t n (ground arith) ∙ ap some (exact n)

  -- SqrtRootFunction with a baseline of at least 1, over the table that init fills, gives the greater of
  -- the baseline and the truncated root for every limit from 0 on, whatever the size of the table, and
  -- panics for every negative limit.
  pub sqrt_root_function_lem :
      (sqrt : F → F) (atoi : Bytes → Option ℤ) (variable : Option Bytes) (baseline : ℤ) (n : ℕ)
      → IsExact sqrt
      → pos 1 ≤ℤ baseline
      → let table = init_table fl sqrt atoi variable in
        (sqrt_root_function fl sqrt table baseline (pos n)
          ≡ some (max baseline (to_int (sqrt (of_int (pos n))))))
        × (sqrt_root_function fl sqrt table baseline (negsuc n) ≡ none)
  unfolding sqrt_root_function
  sqrt_root_function_lem sqrt atoi variable baseline n exact h =
      let table = init_table fl sqrt atoi variable in
      let (t, l) = init_table-IsTable sqrt atoi variable in
      (
        elim (Bool-cases (ltb_ℤ (pos n) (pos (length table)))) [
          | inl e ↦
              rw (e, looked_up sqrt table n t exact e)
                (ap some (max_absorb baseline (to_int (sqrt (of_int (pos n)))) h))
          | inr e ↦ rw e refl
        ],
        below sqrt table baseline n (omega arith),
      )
    where
      below :
          (sqrt : F → F) (table : List ℤ) (baseline : ℤ) (n : ℕ)
          → 0 < length table
          → sqrt_root_function fl sqrt table baseline (negsuc n) ≡ none
      below sqrt table baseline n lt = ground arith

  -- Log10RootFunction over the table that init fills adds to the baseline the truncated logarithm, or 1
  -- where that is less, for every limit from 0 on, and panics for every negative limit. The logarithm of
  -- a limit from 1000 on is at least 1.
  pub log10_root_function_lem :
      (log10 : F → F) (atoi : Bytes → Option ℤ) (variable : Option Bytes) (baseline : ℤ) (n : ℕ)
      → IsExact log10
      → ((m : ℕ) → 1000 ≤ m → pos 1 ≤ℤ to_int (log10 (of_int (pos m))))
      → let table = init_table fl log10 atoi variable in
        (log10_root_function fl log10 table baseline (pos n)
          ≡ some (int64 (baseline +ℤ max (pos 1) (to_int (log10 (of_int (pos n)))))))
        × (log10_root_function fl log10 table baseline (negsuc n) ≡ none)
  unfolding log10_root_function
  log10_root_function_lem log10 atoi variable baseline n exact h =
      let table = init_table fl log10 atoi variable in
      let (t, l) = init_table-IsTable log10 atoi variable in
      (
        elim (Bool-cases (ltb_ℤ (pos n) (pos (length table)))) [
          | inl e ↦ rw (e, looked_up log10 table n t exact e) refl
          | inr e ↦ rw e (
              ap (λ m. some (int64 (baseline +ℤ m)))
                (sym (max_one _ (h n (large n (length table) l e)))))
        ],
        below log10 table baseline n (omega arith),
      )
    where
      large : (n m : ℕ) → 1000 ≤ m → ltb_ℤ (pos n) (pos m) ≡ false → 1000 ≤ n
      large n m l e = ground arith

      below :
          (log10 : F → F) (table : List ℤ) (baseline : ℤ) (n : ℕ)
          → 0 < length table
          → log10_root_function fl log10 table baseline (negsuc n) ≡ none
      below log10 table baseline n lt = ground arith
