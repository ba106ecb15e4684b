-- ===== src/Decompose/Merge.antt =====
-- Merging the outputs of the coinbase transaction: the amounts keep their sum, and there are at most
-- as many as the block version allows.
use Prim.Native.Nat.{max, min}
use native.Mathlib.Decide.{dec_lt}
use naza.Common.{ℕ, zero, suc, ◌+◌, ◌^◌, ◌≤◌, ◌<◌}
use naza.Common.{◌≡◌, refl, arith}
use naza.Common.{◌==◌, if◌then◌else◌}
use naza.Common.{List, [], ◌∷◌}
use naza.Common.{length}
use naza.Decompose.{merge_last, merge_loop, merge_outputs}
use naza.Decompose.Sum.{sum}

merge_last-sum : (xs : List ℕ) → sum xs < 2 ^ 64 → sum (merge_last xs) ≡ sum xs
unfolding merge_last
merge_last-sum [] h = refl
merge_last-sum (x ∷ []) h = refl
merge_last-sum (x ∷ y ∷ []) h = omega arith
merge_last-sum (x ∷ y ∷ z ∷ rest) h = omega (arith, merge_last-sum (y ∷ z ∷ rest) (omega arith))

merge_last-length : (xs : List ℕ) → 1 < length xs → length xs ≡ suc (length (merge_last xs))
unfolding merge_last
merge_last-length [] h = absurd (omega arith)
merge_last-length (x ∷ []) h = absurd (omega arith)
merge_last-length (x ∷ y ∷ []) h = refl
merge_last-length (x ∷ y ∷ z ∷ rest) h =
    omega (arith, merge_last-length (y ∷ z ∷ rest) (omega arith))

merge_loop-sum :
    (fuel max_outs : ℕ) (xs : List ℕ) → sum xs < 2 ^ 64 → sum (merge_loop fuel max_outs xs) ≡ sum xs
unfolding merge_loop
merge_loop-sum zero max_outs xs h = refl
merge_loop-sum (suc fuel) max_outs xs h = ground (
  arith,
  merge_last-sum xs h,
  merge_loop-sum fuel max_outs (merge_last xs) (omega (arith, merge_last-sum xs h)),
)

merge_loop-length :
    (fuel max_outs : ℕ) (xs : List ℕ)
    → 0 < max_outs
    → length xs ≤ fuel + max_outs
    → length (merge_loop fuel max_outs xs) ≡ min max_outs (length xs)
unfolding merge_loop
merge_loop-length zero max_outs xs pos h = omega arith
merge_loop-length (suc fuel) max_outs xs pos h = elim (dec_lt max_outs (length xs)) [
  | yes p ↦ ground (
    arith,
    merge_last-length xs (omega arith),
    merge_loop-length fuel max_outs (merge_last xs) pos
        (omega (arith, merge_last-length xs (omega arith))),
  )
  | no p ↦ ground arith
]

-- Amounts whose sum is below 2^64 keep that sum when they are merged, and there are then as many
-- as before, or `max_outs` (1 where it is 0) if that is less.
pub merge_outputs_exact :
    (max_outs : ℕ) (xs : List ℕ)
    → sum xs < 2 ^ 64
    → (sum (merge_outputs max_outs xs) ≡ sum xs)
      × (length (merge_outputs max_outs xs) ≡ min (max 1 max_outs) (length xs))
unfolding merge_outputs
merge_outputs_exact max_outs xs h =
    let limit = if max_outs == 0 then 1 else max_outs in
    let value : limit ≡ max 1 max_outs = ground arith in
    (
      merge_loop-sum (length xs) limit xs h,
      rw value (merge_loop-length (length xs) (max 1 max_outs) xs (omega arith) (omega arith)),
    )
