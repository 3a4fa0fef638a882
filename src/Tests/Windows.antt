-- ===== src/Tests/Windows.antt =====
-- Sample windows at concrete samples.
use go_concurrency_limits.Base.{true, List, [], ◌∷◌, arith}
use go_concurrency_limits.Base.Int.{pos}
use go_concurrency_limits.Measurements.Window.History.{
  Sample, measured, dropped, add_all, reset_window, Holds, add_all_summary,
}

abbrev samples : List Sample
samples = measured 30 4 ∷ dropped 7 ∷ measured 10 5 ∷ []

add_all_summary_example : Holds (add_all (pos 5) samples reset_window) 10 40 2 7 true
add_all_summary_example =
    add_all_summary (pos 5) samples (omega arith, (tt, (omega arith, tt))) (omega arith)
      (omega arith)
