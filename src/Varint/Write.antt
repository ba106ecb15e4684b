-- ===== src/Varint/Write.antt =====
-- The equations of `write_varint` without its recursion on `Acc`, and its length.
use mathlib.Core.WellFounded.{Acc}
use native.Mathlib.Decide.{dec_lt}
use naza.Common.{ℕ, zero, suc, ◌+◌, ◌/◌, ◌%◌, ◌≤◌, ◌<◌, bit_and, bit_or}
use naza.Common.{◌≡◌, refl, ap, ◌∙◌, arith}
use naza.Common.{[], ◌∷◌}
use naza.Common.{length, All}
use naza.Common.{IsByte}
use naza.Common.Bits.{low_seven, set_top}
use naza.Common.WellFounded.{lt_wf}
use naza.Varint.{write_loop, write_varint}

pub group_byte : (i : ℕ) → bit_or (bit_and (i % 256) 0x7f) 0x80 ≡ i % 128 + 128
group_byte i =
    ap (λ (t : ℕ). bit_or t 0x80) (low_seven (i % 256) (omega arith))
    ∙ set_top (i % 256 % 128) (omega arith)
    ∙ omega arith

write_loop_irrelevant : (n i : ℕ) (v w : Acc ◌<◌ i) → i < n → write_loop i v ≡ write_loop i w
unfolding write_loop
write_loop_irrelevant zero i v w h = absurd (omega arith)
write_loop_irrelevant (suc n) i (Acc.intro _ f) (Acc.intro _ g) h =
    grind (
      arith,
      λ (v w : Acc ◌<◌ (i / 128)) (p : i / 128 < n). write_loop_irrelevant n (i / 128) v w p,
    )

write_loop_last : (i : ℕ) (w : Acc ◌<◌ i) → i < 128 → write_loop i w ≡ i ∷ []
unfolding write_loop
write_loop_last i (Acc.intro _ f) h = ground arith

write_loop_more :
    (i : ℕ) (w : Acc ◌<◌ i) → 128 ≤ i → write_loop i w ≡ (i % 128 + 128) ∷ write_varint (i / 128)
unfolding write_loop write_varint
write_loop_more i (Acc.intro _ f) h = grind (
  arith,
  group_byte i,
  λ (v : Acc ◌<◌ (i / 128)).
      write_loop_irrelevant (i / 128 + 1) (i / 128) v (lt_wf.apply (i / 128)) (omega arith),
)

-- The last byte, and a byte that is followed by others.
pub write_varint_last : (i : ℕ) → i < 128 → write_varint i ≡ i ∷ []
unfolding write_varint
write_varint_last i h = write_loop_last i (lt_wf.apply i) h

pub write_varint_more :
    (i : ℕ) → 128 ≤ i → write_varint i ≡ (i % 128 + 128) ∷ write_varint (i / 128)
write_varint_more i h =
    let entered : write_varint i ≡ write_loop i (lt_wf.apply i) = unfold write_varint in refl in
    entered ∙ write_loop_more i (lt_wf.apply i) h

-- What is written are bytes, one at least.
write_varint_below : (n i : ℕ) → i < n → All IsByte (write_varint i) × (0 < length (write_varint i))
write_varint_below zero i h = absurd (omega arith)
write_varint_below (suc n) i h = elim (dec_lt i 128) [
  | yes p ↦ rw (write_varint_last i p) ((omega arith, tt), omega arith)
  | no p ↦
      let (bytes, some_byte) = write_varint_below n (i / 128) (omega arith) in
      rw (write_varint_more i (omega arith)) ((omega arith, bytes), omega arith)
]

pub write_varint-IsByte : (i : ℕ) → All IsByte (write_varint i) × (0 < length (write_varint i))
write_varint-IsByte i = write_varint_below (suc i) i (omega arith)
