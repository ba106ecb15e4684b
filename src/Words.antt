-- ===== src/Words.antt =====
-- crypto/int-util.h: products and quotients wider than a machine word.
pub mod Product
pub mod Quotient
mod Tests
use naza.Common.{ℕ, ◌+◌, ◌*◌, ◌/◌, ◌%◌, ◌^◌, ◌<◌, bit_or, ltb, if◌then◌else◌}

abbrev pub IsU64 : ℕ → Type 0
IsU64 x = x < 2 ^ 64

abbrev pub IsU32 : ℕ → Type 0
IsU32 x = x < 2 ^ 32

abbrev pub hi_dword : ℕ → ℕ
hi_dword val = val / 2 ^ 32

abbrev pub lo_dword : ℕ → ℕ
lo_dword val = val % 2 ^ 32

-- The two words of a product.
pub record Wide : Type 0 where
  pub lo : ℕ
  pub hi : ℕ

-- The branch with a 128-bit integer: `(uint64_t)res` and `res >> 64`. The assembly does the same.
unfoldable pub mul128 : ℕ → ℕ → Wide
mul128 multiplier multiplicand =
    let res = multiplier * multiplicand in record { lo = res % 2 ^ 64; hi = res / 2 ^ 64 }

-- The portable branch, from 32-bit halves; every operation wraps at 64 bits.
unfoldable pub mul128_portable : ℕ → ℕ → Wide
mul128_portable multiplier multiplicand =
    let a = hi_dword multiplier in
    let b = lo_dword multiplier in
    let c = hi_dword multiplicand in
    let d = lo_dword multiplicand in
    let ac = a * c % 2 ^ 64 in
    let ad = a * d % 2 ^ 64 in
    let bc = b * c % 2 ^ 64 in
    let bd = b * d % 2 ^ 64 in
    let adbc = (ad + bc) % 2 ^ 64 in
    let adbc_carry : ℕ = if ltb adbc ad then 1 else 0 in
    let product_lo = (bd + adbc * 2 ^ 32 % 2 ^ 64) % 2 ^ 64 in
    let product_lo_carry : ℕ = if ltb product_lo bd then 1 else 0 in
    record {
      lo = product_lo;
      hi = (ac + adbc / 2 ^ 32 + adbc_carry * 2 ^ 32 + product_lo_carry) % 2 ^ 64;
    }

-- `dividend |= ((uint64_t)*remainder) << 32;`, then the quotient and the new remainder.
unfoldable pub div_with_reminder : ℕ → ℕ → ℕ → ℕ × ℕ
div_with_reminder dividend divisor remainder =
    let wide = bit_or dividend (remainder * 2 ^ 32 % 2 ^ 64) in
    (wide / divisor, wide % divisor % 2 ^ 32)

pub record LongQuotient : Type 0 where
  pub quotient_hi : ℕ
  pub quotient_lo : ℕ
  pub remainder : ℕ

-- Long division with 2^32 base.
unfoldable pub div128_32 : ℕ → ℕ → ℕ → LongQuotient
div128_32 dividend_hi dividend_lo divisor =
    let (q3, r3) = div_with_reminder (hi_dword dividend_hi) divisor 0 in
    let (q2, r2) = div_with_reminder (lo_dword dividend_hi) divisor r3 in
    let (q1, r1) = div_with_reminder (hi_dword dividend_lo) divisor r2 in
    let (q0, r0) = div_with_reminder (lo_dword dividend_lo) divisor r1 in
    record {
      quotient_hi = bit_or (q3 * 2 ^ 32 % 2 ^ 64) q2;
      quotient_lo = bit_or (q1 * 2 ^ 32 % 2 ^ 64) q0;
      remainder = r0;
    }
