-- ===== src/Words/Product.antt =====
-- `mul128` is exact, in its portable branch too.
use native.Mathlib.Nat.{mod-eq_of_lt}
use naza.Common.{ℕ, ◌+◌, ◌-◌, ◌*◌, ◌/◌, ◌%◌, ◌^◌, ◌≤◌, ◌<◌}
use naza.Common.{◌≡◌, ◌∙◌, arith}
use naza.Common.{ltb, if◌then◌else◌}
use native.Mathlib.Nat.{mul-le-mul}
use mathlib.Core.Path.{ap₂}
use naza.Words.{IsU64, hi_dword, lo_dword, mul128, mul128_portable}

pub mul128_exact : (x y : ℕ) → (mul128 x y).hi * 2 ^ 64 + (mul128 x y).lo ≡ x * y
unfolding mul128
mul128_exact x y = omega arith

below_square : (m x y : ℕ) → x ≤ m → y ≤ m → x * y ≤ m * m
below_square m x y hx hy = mul-le-mul hx hy

pub mul128-IsU64 : (x y : ℕ) → IsU64 x → IsU64 y → IsU64 (mul128 x y).lo × IsU64 (mul128 x y).hi
unfolding mul128
mul128-IsU64 x y hx hy =
    (omega arith, omega (arith, below_square (2 ^ 64 - 1) x y (omega arith) (omega arith)))

halves : (x : ℕ) → x ≡ hi_dword x * 2 ^ 32 + lo_dword x
halves x = omega arith

expand :
    (a b c d : ℕ)
    → (a * 2 ^ 32 + b) * (c * 2 ^ 32 + d) ≡ a * c * 2 ^ 64 + (a * d + b * c) * 2 ^ 32 + b * d
expand a b c d = omega arith

-- The product by halves.
products :
    (x y : ℕ)
    → x * y
      ≡ hi_dword x * hi_dword y * 2 ^ 64
        + (hi_dword x * lo_dword y + lo_dword x * hi_dword y) * 2 ^ 32
        + lo_dword x * lo_dword y
products x y =
    ap₂ (λ (s t : ℕ). s * t) (halves x) (halves y)
    ∙ expand (hi_dword x) (lo_dword x) (hi_dword y) (lo_dword y)

abbrev most : ℕ
most = (2 ^ 32 - 1) * (2 ^ 32 - 1)

-- The carries of the portable branch, for any four products of halves.
carries :
    (ac ad bc bd : ℕ)
    → ac ≤ most
    → ad ≤ most
    → bc ≤ most
    → bd ≤ most
    → ac * 2 ^ 64 + (ad + bc) * 2 ^ 32 + bd < 2 ^ 128
    → let adbc = (ad + bc) % 2 ^ 64 in
      let lo = (bd + adbc * 2 ^ 32 % 2 ^ 64) % 2 ^ 64 in
      let carry : ℕ = if ltb adbc ad then 1 else 0 in
      let lo_carry : ℕ = if ltb lo bd then 1 else 0 in
      (lo ≡ (ac * 2 ^ 64 + (ad + bc) * 2 ^ 32 + bd) % 2 ^ 64)
      × ((ac + adbc / 2 ^ 32 + carry * 2 ^ 32 + lo_carry) % 2 ^ 64
          ≡ (ac * 2 ^ 64 + (ad + bc) * 2 ^ 32 + bd) / 2 ^ 64)
carries ac ad bc bd h1 h2 h3 h4 h5 = (ground arith, ground arith)

small : (t : ℕ) → t ≤ most → t < 2 ^ 64
small t h = omega arith

-- The portable branch of `mul128` computes, for 64-bit factors, the two words of their product
-- that the others do.
pub mul128_portable-mul128 : (x y : ℕ) → IsU64 x → IsU64 y → mul128_portable x y ≡ mul128 x y
unfolding mul128 mul128_portable
mul128_portable-mul128 x y hx hy =
    let a = hi_dword x in
    let b = lo_dword x in
    let c = hi_dword y in
    let d = lo_dword y in
    let ac = below_square (2 ^ 32 - 1) a c (omega arith) (omega arith) in
    let ad = below_square (2 ^ 32 - 1) a d (omega arith) (omega arith) in
    let bc = below_square (2 ^ 32 - 1) b c (omega arith) (omega arith) in
    let bd = below_square (2 ^ 32 - 1) b d (omega arith) (omega arith) in
    let whole = below_square (2 ^ 64 - 1) x y (omega arith) (omega arith) in
    let fits : a * c * 2 ^ 64 + (a * d + b * c) * 2 ^ 32 + b * d < 2 ^ 128 =
      omega (arith, products x y) in
    let (lo, hi) = carries (a * c) (a * d) (b * c) (b * d) ac ad bc bd fits in
    rw
      (
        mod-eq_of_lt (small (a * c) ac),
        mod-eq_of_lt (small (a * d) ad),
        mod-eq_of_lt (small (b * c) bc),
        mod-eq_of_lt (small (b * d) bd),
        products x y,
      )
      (λ i. record { lo = lo i; hi = hi i })
