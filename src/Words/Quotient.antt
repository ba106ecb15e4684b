-- ===== src/Words/Quotient.antt =====
-- `div128_32` is the division of the two words.
use native.Mathlib.Nat.{div-add-mod, mod-eq_of_lt}
use naza.Common.{ℕ, ◌+◌, ◌*◌, ◌/◌, ◌%◌, ◌^◌, ◌<◌, bit_or}
use naza.Common.{◌≡◌, refl, ap, ◌∙◌, arith}
use native.Mathlib.Nat.{mod-lt, div-lt_iff_lt-mul}
use naza.Common.Bits.{bit_or-shifted, shifted-bit_or}
use naza.Words.{IsU64, IsU32, hi_dword, lo_dword, LongQuotient, div_with_reminder, div128_32}

-- What one step divides.
abbrev step_value : ℕ → ℕ → ℕ
step_value r x = x + r * 2 ^ 32

div_step :
    (x d r : ℕ)
    → IsU32 x
    → IsU32 d
    → r < d
    → div_with_reminder x d r ≡ (step_value r x / d, step_value r x % d)
unfolding div_with_reminder
div_step x d r hx hd hr =
    let joined : bit_or x (r * 2 ^ 32 % 2 ^ 64) ≡ step_value r x =
      ap (λ (t : ℕ). bit_or x t) (mod-eq_of_lt (omega arith)) ∙ bit_or-shifted 32 x r hx in
    let small : step_value r x % d % 2 ^ 32 ≡ step_value r x % d =
      mod-eq_of_lt (omega (arith, mod-lt (step_value r x) {m = d} (omega arith))) in
    rw (joined, small) refl

-- The quotient of a step fits 32 bits.
step_quotient : (x d r : ℕ) → IsU32 x → r < d → IsU32 (step_value r x / d)
step_quotient x d r hx hr =
    (div-lt_iff_lt-mul {k = d} {x = step_value r x} {y = 2 ^ 32} (omega arith)).1 (omega arith)

join : (a b : ℕ) → IsU32 a → IsU32 b → bit_or (a * 2 ^ 32 % 2 ^ 64) b ≡ b + a * 2 ^ 32
join a b ha hb = ap (λ (t : ℕ). bit_or t b) (mod-eq_of_lt (omega arith)) ∙ shifted-bit_or 32 b a hb

-- The four steps over the words of the dividend, each with the remainder before it.
module _ (hi lo d : ℕ) where
  abbrev s3 : ℕ
  s3 = step_value 0 (hi_dword hi)

  abbrev s2 : ℕ
  s2 = step_value (s3 % d) (lo_dword hi)

  abbrev s1 : ℕ
  s1 = step_value (s2 % d) (hi_dword lo)

  abbrev s0 : ℕ
  s0 = step_value (s1 % d) (lo_dword lo)

  abbrev long_division : LongQuotient
  long_division = record {
    quotient_hi = s2 / d + s3 / d * 2 ^ 32;
    quotient_lo = s0 / d + s1 / d * 2 ^ 32;
    remainder = s0 % d;
  }

  div128_32-long_division :
      IsU64 hi → IsU64 lo → IsU32 d → 0 < d → div128_32 hi lo d ≡ long_division
  unfolding div128_32
  div128_32-long_division hhi hlo hd pos =
      rw
        (
          div_step (hi_dword hi) d 0 (omega arith) hd pos,
          div_step (lo_dword hi) d (s3 % d) (omega arith) hd (mod-lt s3 pos),
          div_step (hi_dword lo) d (s2 % d) (omega arith) hd (mod-lt s2 pos),
          div_step (lo_dword lo) d (s1 % d) (omega arith) hd (mod-lt s1 pos),
          join (s3 / d) (s2 / d) (step_quotient (hi_dword hi) d 0 (omega arith) pos)
              (step_quotient (lo_dword hi) d (s3 % d) (omega arith) (mod-lt s3 pos)),
          join (s1 / d) (s0 / d)
              (step_quotient (hi_dword lo) d (s2 % d) (omega arith) (mod-lt s2 pos))
              (step_quotient (lo_dword lo) d (s1 % d) (omega arith) (mod-lt s1 pos)),
        )
        refl

-- For a 128-bit dividend and a positive 32-bit divisor, the quotient's words, of 64 bits each, and
-- the remainder, below the divisor, are those of the dividend.
pub div128_32_exact :
    (hi lo d : ℕ)
    → IsU64 hi
    → IsU64 lo
    → IsU32 d
    → 0 < d
    → let q = div128_32 hi lo d in
      (hi * 2 ^ 64 + lo ≡ (q.quotient_hi * 2 ^ 64 + q.quotient_lo) * d + q.remainder)
      × (q.remainder < d)
      × IsU64 q.quotient_hi
      × IsU64 q.quotient_lo
div128_32_exact hi lo d hhi hlo hd pos =
    let b3 = step_quotient (hi_dword hi) d 0 (omega arith) pos in
    let b2 = step_quotient (lo_dword hi) d (s3 hi lo d % d) (omega arith) (mod-lt _ pos) in
    let b1 = step_quotient (hi_dword lo) d (s2 hi lo d % d) (omega arith) (mod-lt _ pos) in
    let b0 = step_quotient (lo_dword lo) d (s1 hi lo d % d) (omega arith) (mod-lt _ pos) in
    rw (div128_32-long_division hi lo d hhi hlo hd pos)
      (sums, mod-lt (s0 hi lo d) pos, omega (arith, b3, b2), omega (arith, b1, b0))
  where
    sums :
        hi * 2 ^ 64 + lo
        ≡ ((s2 hi lo d / d + s3 hi lo d / d * 2 ^ 32) * 2 ^ 64
              + (s0 hi lo d / d + s1 hi lo d / d * 2 ^ 32))
            * d
          + s0 hi lo d % d
    sums = omega (
      arith,
      div-add-mod (s3 hi lo d) d,
      div-add-mod (s2 hi lo d) d,
      div-add-mod (s1 hi lo d) d,
      div-add-mod (s0 hi lo d) d,
    )
