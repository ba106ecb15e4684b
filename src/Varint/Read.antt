-- ===== src/Varint/Read.antt =====
-- `read_varint` on what `write_varint` wrote, and on any bytes.
use native.Mathlib.Decide.{dec_lt}
use native.Mathlib.Nat.{div-add-mod, mod-eq_of_lt}
use naza.Common.{ℕ, zero, suc, ◌+◌, ◌-◌, ◌*◌, ◌/◌, ◌%◌, ◌^◌, ◌≤◌, ◌<◌, bit_or}
use naza.Common.{◌≡◌, ap, ◌∙◌, ◌⊎◌, arith}
use naza.Common.{List, ◌∷◌, ◌++◌}
use naza.Common.{length}
use naza.Common.Bits.{low_seven, top_bit, bit_or-shifted}
use naza.Common.Powers.{pow-add, pow_mono, shifted-lt}
use naza.Varint.{ReadCode, add_group}
use naza.Varint.{read_loop, read_varint_bits, write_varint}
use naza.Varint.Write.{write_varint_last, write_varint_more}

-- Whole groups of seven bits below `bits`.
pub seven_more : (s : ℕ) → 2 ^ (s + 7) ≡ 128 * 2 ^ s
seven_more s = omega (arith, pow-add 2 s 7)

-- A group that stays below `width` bits is added.
pub add_group_fits :
    (width i byte s : ℕ)
    → byte < 256
    → i < 2 ^ s
    → byte % 128 * 2 ^ s < 2 ^ width
    → add_group width i byte s ≡ i + byte % 128 * 2 ^ s
add_group_fits width i byte s hb hi fits =
    ap (λ (t : ℕ). bit_or i (t * 2 ^ s % 2 ^ width)) (low_seven byte hb)
    ∙ ap (λ (t : ℕ). bit_or i t) (mod-eq_of_lt fits)
    ∙ bit_or-shifted s i (byte % 128) hi

pub high_and_low : (s w : ℕ) → w / 128 * 2 ^ (s + 7) + w % 128 * 2 ^ s ≡ w * 2 ^ s
high_and_low s w =
    let high : w / 128 * 2 ^ (s + 7) ≡ w / 128 * (128 * 2 ^ s) =
      ap (λ (t : ℕ). w / 128 * t) (seven_more s) in
    let whole = ap (λ (t : ℕ). t * 2 ^ s) (div-add-mod w 128) in omega (arith, high, whole)

-- More than one group: the bits end beyond this one.
many_groups : (b s w : ℕ) → 128 ≤ w → w * 2 ^ s < 2 ^ b → s + 7 < b
many_groups b s w h fits = elim (dec_lt (s + 7) b) [
  | yes p ↦ p
  | no p ↦ absurd (omega (arith, pow_mono (b - s) 7 (omega arith), shifted-lt b s w fits))
]

-- One round on a last byte, and on a byte with the top bit.
module _ (bits width : ℕ) (narrow : bits ≤ width) where
  last_byte :
      (w s i read : ℕ) (rest : List ℕ)
      → w < 128
      → i < 2 ^ s
      → i + w * 2 ^ s < 2 ^ bits
      → (s ≡ 0) ⊎ (0 < w)
      → read_loop bits width (w ∷ rest) s i read
        ≡ record { code = ReadCode.count (read + 1); value = i + w * 2 ^ s; rest = rest }
  unfolding read_loop
  last_byte w s i read rest hw hi fits real = ground (
    arith,
    top_bit w (omega arith),
    shifted-lt bits s w (omega arith),
    pow_mono bits width narrow,
    add_group_fits width i w s (omega arith) hi,
  )

  inner_byte :
      (g s i read : ℕ) (rest : List ℕ)
      → g < 128
      → i < 2 ^ s
      → i + g * 2 ^ s < 2 ^ bits
      → s + 7 < bits
      → read_loop bits width ((g + 128) ∷ rest) s i read
        ≡ read_loop bits width rest (s + 7) (i + g * 2 ^ s) (read + 1)
  unfolding read_loop
  inner_byte g s i read rest hg hi fits more = ground (
    arith,
    top_bit (g + 128) (omega arith),
    pow_mono bits width narrow,
    add_group_fits width i (g + 128) s (omega arith) hi,
  )

  pub below_next : (g s i : ℕ) → g < 128 → i < 2 ^ s → i + g * 2 ^ s < 2 ^ (s + 7)
  below_next g s i hg hi = grind (arith, seven_more s)

  read_loop-write :
      (n w s i read : ℕ) (rest : List ℕ)
      → w < n
      → i < 2 ^ s
      → i + w * 2 ^ s < 2 ^ bits
      → (s ≡ 0) ⊎ (0 < w)
      → read_loop bits width (write_varint w ++ rest) s i read ≡ record {
        code = ReadCode.count (read + length (write_varint w));
        value = i + w * 2 ^ s;
        rest = rest;
      }
  read_loop-write zero w s i read rest hn hi fits real = absurd (omega arith)
  read_loop-write (suc n) w s i read rest hn hi fits real = elim (dec_lt w 128) [
    | yes p ↦ rw (write_varint_last w p) (last_byte w s i read rest p hi fits real)
    | no p ↦ ground (
      arith,
      write_varint_more w (omega arith),
      high_and_low s w,
      many_groups bits s w (omega arith) (omega arith),
      below_next (w % 128) s i (omega arith) hi,
      inner_byte (w % 128) s i read (write_varint (w / 128) ++ rest) (omega arith) hi,
      read_loop-write n (w / 128) (s + 7) (i + w % 128 * 2 ^ s) (read + 1) rest (omega arith),
    )
  ]

-- For a bound on the bits that fits the type and a value below it, `read_varint` gives back the
-- value that `write_varint` wrote, counts its bytes and leaves what follows them.
pub read_varint-write_varint :
    (bits width v : ℕ) (rest : List ℕ)
    → bits ≤ width
    → v < 2 ^ bits
    → read_varint_bits bits width (write_varint v ++ rest)
      ≡ record { code = ReadCode.count (length (write_varint v)); value = v; rest = rest }
unfolding read_varint_bits
read_varint-write_varint bits width v rest h fits =
    ground (arith, read_loop-write bits width h (v + 1) v 0 0 0 rest)
