-- ===== src/Limit/Gradient2/Range.antt =====
-- The range of Gradient2Limit's estimate, and what NaN does to it.
use go_concurrency_limits.Base.{
  ◌≡◌, sym, ap, subst, ◌∙◌, Bool, false, List, [], ◌∷◌, Option, some, arith, ◌⊎◌, inl, inr,
}
use go_concurrency_limits.Base.Int.{ℤ, pos, int64}
use go_concurrency_limits.Base.Float.{Float64, IsIeee, Le, IsNan}
use go_concurrency_limits.Measurements.Averages.{
  single_add, exponential_add, new_exponential_average_measurement,
}
use go_concurrency_limits.Limit.Gradient2.{
  Gradient2Limit, new_gradient2_limit, new_limit, on_sample,
}

pub record Sample : Type 0 where
  pub start_time : ℤ
  pub rtt : ℤ
  pub in_flight : ℤ
  pub did_drop : Bool

module _ (fl : Float64) where
  open fl use {F, of_int, fadd, fsub, fmul, fdiv, fmax, fmin, flt, fle, ratio}

  unfoldable pub step : Sample → Gradient2Limit fl → Gradient2Limit fl
  step x l = on_sample fl x.start_time x.rtt x.in_flight x.did_drop l

  unfoldable pub run : List Sample → Gradient2Limit fl → Gradient2Limit fl
  run [] l = l
  run (x ∷ xs) l = run xs (step x l)

  -- The estimate is NaN or lies between the least and the greatest limit.
  abbrev pub InRange : Gradient2Limit fl → Type 0
  InRange l =
      IsNan fl l.estimated_limit
      ⊎ (Le fl (of_int l.min_limit) l.estimated_limit
          × Le fl l.estimated_limit (of_int l.max_limit))

  module _ (ieee : IsIeee fl) where
    open ieee use {
      number_of_le, max_nan, max_nan_ratio, min_nan, add_nan_left, add_nan_right, mul_nan_left,
      mul_nan_right, div_nan_left, lt_nan_right, zero_div_zero, zero_add_zero, zero_div_one,
    }

    new_limit-IsNan :
        (long short : F) (n : ℤ) (l : Gradient2Limit fl)
        → IsNan fl l.estimated_limit ⊎ IsNan fl (fdiv long short)
        → IsNan fl (new_limit fl long short n l)
    unfolding new_limit
    new_limit-IsNan long short n l c = max_nan _ _ (
        min_nan _ _ (elim c [
          | inl e ↦ add_nan_left _ _ (mul_nan_left _ _ e)
          | inr e ↦ add_nan_right _ _ (
              mul_nan_left _ _ (
                add_nan_left _ _ (
                  mul_nan_right _ _
                    (max_nan_ratio 5 10 _ (omega arith) (omega arith) (min_nan (pos 1) _ e)))))
        ]))

    step-IsNan :
        (x : Sample) (l : Gradient2Limit fl)
        → IsNan fl l.estimated_limit
        → IsNan fl (step x l).estimated_limit
    unfolding step on_sample
    step-IsNan x l e =
        let f =
          lt_nan_right (of_int x.in_flight) (fdiv l.estimated_limit (of_int (pos 2)))
            (div_nan_left _ _ e) in
        rw f (new_limit-IsNan _ _ _ l (inl e))

    run-IsNan :
        (xs : List Sample) (l : Gradient2Limit fl)
        → IsNan fl l.estimated_limit
        → IsNan fl (run xs l).estimated_limit
    unfolding run
    run-IsNan [] l e = e
    run-IsNan (x ∷ xs) l e = run-IsNan xs (step x l) (step-IsNan x l e)

    fresh_average :
        (w : ℤ)
        → (exponential_add fl
            (of_int (pos 0))
            (new_exponential_average_measurement fl w (pos 10))).value
          ≡ of_int (pos 0)
    unfolding exponential_add new_exponential_average_measurement int64
    fresh_average w = ap (λ z. fdiv z (of_int (pos 1))) zero_add_zero ∙ zero_div_one

    first_zero :
        (x : Sample) (l : Gradient2Limit fl)
        → x.rtt ≡ pos 0
        → l.long_rtt ≡ new_exponential_average_measurement fl l.long_rtt.window (pos 10)
        → flt (of_int x.in_flight) (fdiv l.estimated_limit (of_int (pos 2))) ≡ false
        → IsNan fl (step x l).estimated_limit
    unfolding step on_sample single_add
    first_zero x l z n f =
        let long =
          ap (λ m. (exponential_add fl (of_int x.rtt) m).value) n
          ∙ ap
              (λ r.
                (exponential_add fl (of_int r)
                  (new_exponential_average_measurement fl l.long_rtt.window (pos 10))).value)
              z
          ∙ fresh_average l.long_rtt.window in
        let e : fdiv (exponential_add fl (of_int x.rtt) l.long_rtt).value (of_int x.rtt)
            ≡ fdiv (of_int (pos 0)) (of_int (pos 0)) =
          ap (λ a. fdiv a (of_int x.rtt)) long ∙ ap (λ r. fdiv (of_int (pos 0)) (of_int r)) z in
        rw f (new_limit-IsNan _ _ _ l (inr (subst (IsNan fl) (sym e) zero_div_zero)))

    -- If the first sample of a limit has RTT 0, and is not below half of the estimate in flight, then
    -- the estimate is NaN from then on, whatever samples follow.
    pub zero_rtt_poisons :
        (x : Sample) (xs : List Sample) (initial most least window : ℤ) (size : Option (ℤ → ℤ))
        (smoothing : F) (l : Gradient2Limit fl)
        → new_gradient2_limit fl initial most least size smoothing window ≡ some l
        → x.rtt ≡ pos 0
        → flt (of_int x.in_flight) (fdiv l.estimated_limit (of_int (pos 2))) ≡ false
        → IsNan fl (run (x ∷ xs) l).estimated_limit
    unfolding run
    zero_rtt_poisons x xs initial most least window size smoothing l e z f =
        run-IsNan xs (step x l)
          (first_zero x l z (made initial most least window size smoothing l e) f)
      where
        made :
            (initial most least window : ℤ) (size : Option (ℤ → ℤ)) (smoothing : F)
            (l : Gradient2Limit fl)
            → new_gradient2_limit fl initial most least size smoothing window ≡ some l
            → l.long_rtt ≡ new_exponential_average_measurement fl l.long_rtt.window (pos 10)
        made initial most least window size smoothing l e =
            unfold new_gradient2_limit new_exponential_average_measurement in ground arith
