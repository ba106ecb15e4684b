-- ===== src/Decompose/Tests.antt =====
-- Runs of the decomposition and of the merging, and their theorems at concrete amounts.
use naza.Common.{ℕ}
use naza.Common.{◌≡◌, refl, arith}
use naza.Common.{some, List, [], ◌∷◌}
use naza.Common.{length}
use naza.Decompose.{
  push_nonzero, push_dust, dust_waits, join_dust, push_chunk, digit_step, digit_loop,
}
use naza.Decompose.{decompose_amount, merge_last, merge_loop, merge_outputs}
use naza.Decompose.Sum.{sum, sum-decompose_amount}
use naza.Decompose.Merge.{merge_outputs_exact}

parts_of :
    decompose_amount 62387455827 1000000
    ≡ some (827 ∷ 455000 ∷ 7000000 ∷ 80000000 ∷ 300000000 ∷ 2000000000 ∷ 60000000000 ∷ [])
unfolding decompose_amount digit_loop digit_step join_dust push_chunk dust_waits push_dust
    push_nonzero
parts_of = refl

sum-decompose_amount_example :
    (parts : List ℕ) × (decompose_amount 62387455827 1000000 ≡ some parts)
    × (sum parts ≡ 62387455827)
sum-decompose_amount_example = sum-decompose_amount 62387455827 1000000 (omega arith)

merged : merge_outputs 2 (7 ∷ 80 ∷ 300 ∷ []) ≡ 7 ∷ 380 ∷ []
unfolding merge_outputs merge_loop merge_last
merged = refl

merge_outputs_exact_example :
    (sum (merge_outputs 2 (7 ∷ 80 ∷ 300 ∷ [])) ≡ 387)
    × (length (merge_outputs 2 (7 ∷ 80 ∷ 300 ∷ [])) ≡ 2)
merge_outputs_exact_example = merge_outputs_exact 2 (7 ∷ 80 ∷ 300 ∷ []) (omega arith)
