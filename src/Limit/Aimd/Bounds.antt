-- ===== src/Limit/Aimd/Bounds.antt =====
-- How far AIMDLimit moves.
use go_concurrency_limits.Base.{
  ℕ, ◌+◌, ◌-◌, ◌≤◌, ◌<◌, ◌≡◌, refl, sym, ap, subst, ◌∙◌, Bool, true, false, List, [], ◌∷◌, arith,
  length, total, All, if◌then◌else◌, Bool-cases, inl, inr,
}
use go_concurrency_limits.Base.Int.{
  ℤ, pos, pos_part, int64-eq_of_Fits, two_31, ◌≤ℤ◌, at_least_one, leb_ℤ, int64_dec, +ℤ_pos,
}
use go_concurrency_limits.Base.Float.{Float64, IsIeee, IsNumber}
use go_concurrency_limits.Limit.Aimd.{AimdLimit, backed_off, on_sample}

pub record Sample : Type 0 where
  pub rtt : ℤ
  pub in_flight : ℤ
  pub did_drop : Bool

-- How much one sample may raise the limit.
abbrev pub raise : ℕ → Sample → ℕ
raise k x = if x.did_drop then 0 else k

module _ (fl : Float64) where
  open fl use {F, of_int, to_int, fmul, fmax, fmin}

  unfoldable pub run : List Sample → AimdLimit fl → AimdLimit fl
  run [] l = l
  run (x ∷ xs) l = run xs (on_sample fl (pos 0) x.rtt x.in_flight x.did_drop l)

  module _ (ieee : IsIeee fl) where
    open ieee use {le_trans, number_of_le, of_int_mono, max_left, max_le, min_left, to_int_bounds}

    -- A drop brings a limit n down by at least one, and never below one.
    pub backed_off_bounds :
        (n : ℕ) (l : AimdLimit fl)
        → l.limit ≡ pos n
        → 1 ≤ n
        → n < two_31
        → IsNumber fl (fmul (of_int (pos n)) l.back_off_ratio)
        → (pos 1 ≤ℤ backed_off fl l) × (backed_off fl l ≤ℤ pos (at_least_one (n - 1)))
    unfolding backed_off
    backed_off_bounds n l e one small number =
        let m = at_least_one (n - 1) in
        let a = of_int (pos (n - 1)) in
        let b = fmul (of_int (pos n)) l.back_off_ratio in
        let a_number = number_of_le a a (of_int_mono (n - 1) (n - 1) (omega arith)) in
        let below = min_left a b a_number.0 number in
        let min_number = number_of_le _ _ below in
        let one_number = number_of_le (of_int (pos 1)) _ (of_int_mono 1 1 (omega arith)) in
        let lower = max_left (of_int (pos 1)) (fmin a b) one_number.0 min_number.0 in
        let upper =
          max_le (of_int (pos 1)) (fmin a b) (of_int (pos m)) (of_int_mono 1 m (ground arith))
            (le_trans (fmin a b) a (of_int (pos m)) below (of_int_mono (n - 1) m (ground arith))) in
        let q : backed_off fl l ≡ to_int (fmax (of_int (pos 1)) (fmin a b)) =
          rw (e, backed_off, int64_dec n (omega arith) (omega arith)) refl in
        subst (λ z. (pos 1 ≤ℤ z) × (z ≤ℤ pos m)) (sym q)
          (to_int_bounds 1 m _ (ground arith) lower upper)

    -- The product with the back-off ratio is never NaN.
    abbrev pub IsRatio : F → Type 0
    IsRatio r = (n : ℕ) → n < two_31 → IsNumber fl (fmul (of_int (pos n)) r)

    -- What one sample does to a limit n.
    record Moved (n m k : ℕ) (d : Bool) (l l' : AimdLimit fl) : Type 0 where
      limit : l'.limit ≡ pos m
      one : 1 ≤ m
      rise : m ≤ n + (if d then 0 else k)
      fall : (d ≡ true) → m ≤ at_least_one (n - 1)
      increase_by : l'.increase_by ≡ l.increase_by
      back_off_ratio : l'.back_off_ratio ≡ l.back_off_ratio

    on_sample-Moved :
        (rtt in_flight : ℤ) (d : Bool) (n k : ℕ) (l : AimdLimit fl)
        → l.limit ≡ pos n
        → l.increase_by ≡ pos k
        → 1 ≤ n
        → n + (if d then 0 else k) < two_31
        → IsRatio l.back_off_ratio
        → (m : ℕ) × Moved n m k d l (on_sample fl (pos 0) rtt in_flight d l)
    unfolding on_sample
    on_sample-Moved rtt in_flight true n k l e i one small r =
        let (lo, hi) = backed_off_bounds n l e one (omega arith) (r n (omega arith)) in
        let y = backed_off fl l in
        let q : y ≡ pos (pos_part y) = ground arith in
        (
          pos_part y,
          record {
            limit = q;
            one = ground arith;
            rise = ground arith;
            fall = λ _. ground arith;
            increase_by = refl;
            back_off_ratio = refl;
          },
        )
    on_sample-Moved rtt in_flight false n k l e i one small r =
        elim (Bool-cases (leb_ℤ l.limit in_flight)) [
          | inl f ↦ (
            n + k,
            record {
              limit = ground (arith, +ℤ_pos n k, int64-eq_of_Fits (pos (n + k)));
              one = omega arith;
              rise = omega arith;
              fall = λ z. absurd (ground arith);
              increase_by = ground arith;
              back_off_ratio = ground arith;
            },
          )
          | inr f ↦ (
            n,
            record {
              limit = ground arith;
              one = one;
              rise = omega arith;
              fall = λ z. absurd (ground arith);
              increase_by = ground arith;
              back_off_ratio = ground arith;
            },
          )
        ]

    -- From a limit n that is at least 1 and through any samples, the limit is at least 1, and at most n
    -- plus the increases of the samples that were not dropped, where that bound is below 2^31, the
    -- increase is not negative, and no product of an integer below 2^31 with the back-off ratio is NaN.
    pub run_bounds :
        (xs : List Sample) (n k : ℕ) (l : AimdLimit fl)
        → l.limit ≡ pos n
        → l.increase_by ≡ pos k
        → 1 ≤ n
        → n + total (raise k) xs < two_31
        → IsRatio l.back_off_ratio
        → (pos 1 ≤ℤ (run xs l).limit) × ((run xs l).limit ≤ℤ pos (n + total (raise k) xs))
    unfolding run
    run_bounds [] n k l e i one small r = ground arith
    run_bounds (x ∷ xs) n k l e i one small r =
        let (m, v) = on_sample-Moved x.rtt x.in_flight x.did_drop n k l e i one (omega arith) r in
        let rise = v.rise in
        let (lo, hi) =
          run_bounds xs m k _ v.limit (v.increase_by ∙ i) v.one (omega arith)
            (subst IsRatio (sym v.back_off_ratio) r) in
        (lo, omega arith)

    -- From a limit n that is at least 1 and below 2^31, n - 1 dropped samples in a row or more bring the
    -- limit to 1, where no product of an integer below 2^31 with the back-off ratio is NaN.
    pub drops_collapse :
        (xs : List Sample) (n k : ℕ) (l : AimdLimit fl)
        → l.limit ≡ pos n
        → l.increase_by ≡ pos k
        → 1 ≤ n
        → n < two_31
        → IsRatio l.back_off_ratio
        → All (λ x. x.did_drop ≡ true) xs
        → n ≤ length xs + 1
        → (run xs l).limit ≡ pos 1
    unfolding run
    drops_collapse [] n k l e i one small r a enough = e ∙ ap pos (omega arith)
    drops_collapse (x ∷ xs) n k l e i one small r a enough =
        let d = a.0 in
        let (m, v) = on_sample-Moved x.rtt x.in_flight x.did_drop n k l e i one (ground arith) r in
        let fall = v.fall d in
        drops_collapse xs m k _ v.limit (v.increase_by ∙ i) v.one (ground arith)
          (subst IsRatio (sym v.back_off_ratio) r) a.1 (ground arith)
