-- ===== src/Varint/Canonical.antt =====
-- What `read_varint` accepts: canonical encodings, and input that ends inside a number.
use native.Mathlib.Decide.{dec_lt}
use naza.Common.{ℕ, ◌+◌, ◌-◌, ◌*◌, ◌/◌, ◌%◌, ◌^◌, ◌≤◌, ◌<◌}
use naza.Common.{◌≡◌, ap, ◌⊎◌, inl, inr, arith}
use naza.Common.{List, [], ◌∷◌, ◌++◌}
use naza.Common.{length, All}
use naza.Common.{IsByte}
use naza.Common.Bits.{top_bit}
use naza.Common.Powers.{pow_mono, pow_split}
use naza.Varint.{ReadCode, ReadResult}
use naza.Varint.{read_loop, read_varint_bits, write_varint}
use naza.Varint.Read.{add_group_fits, high_and_low, below_next}
use naza.Varint.Write.{write_varint_last, write_varint_more}

abbrev pub counted : ℕ → ℕ → List ℕ → ReadResult
counted n v rest = record { code = ReadCode.count n; value = v; rest = rest }

abbrev pub HasMore : ℕ → Type 0
HasMore b = 128 ≤ b

-- The input was the encoding of `w`, to be placed at bit `s` over `i`.
abbrev Complete : ℕ → ℕ → ℕ → ℕ → List ℕ → ℕ → ℕ → List ℕ → Type 0
Complete bits s i read src n v rest =
    (w : ℕ) × (v ≡ i + w * 2 ^ s)
    × (v < 2 ^ bits)
    × (src ≡ write_varint w ++ rest)
    × (n ≡ read + length (write_varint w))
    × ((s ≡ 0) ⊎ (0 < w))

-- The input ended, and every byte of it announced another one.
abbrev Truncated : ℕ → List ℕ → ℕ → List ℕ → Type 0
Truncated read src n rest = (rest ≡ []) × (n ≡ read + length src) × All HasMore src

module _ (bits width : ℕ) (narrow : bits ≤ width) where
  fits_last : (s i b : ℕ) → s ≤ bits → i < 2 ^ s → b < 2 ^ (bits - s) → i + b * 2 ^ s < 2 ^ bits
  fits_last s i b hs hi hb = grind (arith, pow_split s bits hs)

  -- A last byte.
  accepted_last :
      (b s i read n v : ℕ) (src rest : List ℕ)
      → b < 128
      → s ≤ bits
      → i < 2 ^ s
      → read_loop bits width (b ∷ src) s i read ≡ counted n v rest
      → (v ≡ i + b * 2 ^ s) × (v < 2 ^ bits) × (src ≡ rest) × (n ≡ read + 1) × ((s ≡ 0) ⊎ (0 < b))
  unfolding read_loop
  accepted_last b s i read n v src rest hb hs hi e = ground (
    arith,
    top_bit b (omega arith),
    fits_last s i b hs hi,
    below_next bits width narrow b s i hb hi,
    pow_mono (s + 7) bits,
    pow_mono bits width narrow,
    add_group_fits width i b s (omega arith) hi,
  )

  -- A byte that announces another one.
  accepted_more :
      (b s i read n v : ℕ) (src rest : List ℕ)
      → b < 256
      → 128 ≤ b
      → s ≤ bits
      → i < 2 ^ s
      → read_loop bits width (b ∷ src) s i read ≡ counted n v rest
      → (s + 7 < bits)
        × (read_loop bits width src (s + 7) (i + b % 128 * 2 ^ s) (read + 1) ≡ counted n v rest)
  unfolding read_loop
  accepted_more b s i read n v src rest hb more hs hi e = ground (
    arith,
    top_bit b hb,
    below_next bits width narrow (b % 128) s i (omega arith) hi,
    pow_mono (s + 7) bits,
    pow_mono (bits - s) 7,
    pow_mono bits width narrow,
    add_group_fits width i b s hb hi,
  )

  -- One more group in front of an accepted number.
  Complete-more :
      (b s i read n v : ℕ) (src rest : List ℕ)
      → b < 256
      → 128 ≤ b
      → Complete bits (s + 7) (i + b % 128 * 2 ^ s) (read + 1) src n v rest
      → Complete bits s i read (b ∷ src) n v rest
  Complete-more b s i read n v src rest hb more (w, value, fits, bytes, number, real) =
      let w' = b % 128 + 128 * w in
      let front : write_varint w' ≡ b ∷ write_varint w =
        ground (arith, write_varint_more w', ap (λ (t : ℕ). write_varint t) (cut w)) in
      (
        w',
        ground (arith, high_and_low s w', cut w),
        fits,
        ground (arith, front),
        ground (arith, front, ap length front),
        ground arith,
      )
    where
      cut : (w : ℕ) → (b % 128 + 128 * w) / 128 ≡ w
      cut w = omega arith

  read_loop_sound :
      (src : List ℕ) (s i read n v : ℕ) (rest : List ℕ)
      → All IsByte src
      → s ≤ bits
      → i < 2 ^ s
      → read_loop bits width src s i read ≡ counted n v rest
      → Complete bits s i read src n v rest ⊎ Truncated read src n rest
  unfolding read_loop
  read_loop_sound [] s i read n v rest bytes hs hi e = inr (ground arith, ground arith, tt)
  read_loop_sound (b ∷ src) s i read n v rest bytes hs hi e = elim (dec_lt b 128) [
    | yes p ↦
        let (value, fits, same, number, real) = accepted_last b s i read n v src rest p hs hi e in
        inl (
          b,
          value,
          fits,
          ground (arith, write_varint_last b p),
          ground (arith, write_varint_last b p),
          real,
        )
    | no p ↦
        let more : 128 ≤ b = omega arith in
        let (room, next) = accepted_more b s i read n v src rest bytes.0 more hs hi e in
        let below = below_next bits width narrow (b % 128) s i (omega arith) hi in
        elim (read_loop_sound src (s + 7) (i + b % 128 * 2 ^ s) (read + 1) n v rest bytes.1
          (omega arith) below next) [
            | inl c ↦ inl (Complete-more b s i read n v src rest bytes.0 more c)
            | inr (none_left, number, all_more) ↦ inr (none_left, omega arith, (more, all_more))
          ]
  ]

-- For a bound on the bits that fits the type: where `read_varint` returns a count of bytes, the
-- value is below the bound and the count covers its one encoding, or the input ended inside a
-- number, every byte of it announcing another, and the count is of all its bytes.
pub read_varint_sound :
    (bits width n v : ℕ) (src rest : List ℕ)
    → bits ≤ width
    → All IsByte src
    → read_varint_bits bits width src ≡ counted n v rest
    → ((v < 2 ^ bits) × (src ≡ write_varint v ++ rest) × (n ≡ length (write_varint v)))
      ⊎ ((rest ≡ []) × (n ≡ length src) × All HasMore src)
unfolding read_varint_bits
read_varint_sound bits width n v src rest narrow bytes e =
    elim (read_loop_sound bits width narrow src 0 0 0 n v rest bytes (omega arith) (omega arith)
      e) [
        | inl (w, value, fits, whole, number, real) ↦
            let same : v ≡ w = omega arith in inl (fits, rw same whole, rw same (omega arith))
        | inr (none_left, number, all_more) ↦ inr (none_left, omega arith, all_more)
      ]
