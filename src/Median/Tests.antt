-- ===== src/Median/Tests.antt =====
-- Medians of small vectors.
use naza.Common.{[], ◌∷◌, ◌≡◌, refl, arith}
use naza.Median.{median_value, IsMedian, median_value-IsMedian}

even_median : median_value 32 (9 ∷ 2 ∷ 7 ∷ 4 ∷ []) ≡ 5
unfolding median_value
even_median = refl

-- The sum of the two middle elements wraps.
wrapped_median : median_value 32 (2147483648 ∷ 2147483650 ∷ []) ≡ 1
unfolding median_value
wrapped_median = refl

median_value-IsMedian_example : IsMedian (9 ∷ 2 ∷ 7 ∷ 4 ∷ []) (median_value 32 (9 ∷ 2 ∷ 7 ∷ 4 ∷ []))
median_value-IsMedian_example =
    median_value-IsMedian 32 (9 ∷ 2 ∷ 7 ∷ 4 ∷ []) (omega arith)
      (omega arith, (omega arith, (omega arith, (omega arith, tt))))
