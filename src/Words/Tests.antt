-- ===== src/Words/Tests.antt =====
-- The wide products and quotients at concrete words.
use naza.Common.{ℕ, ◌+◌, ◌*◌, ◌^◌, ◌-◌, ◌<◌, ◌≡◌, refl, arith}
use naza.Words.{IsU64, mul128, mul128_portable, div128_32, div_with_reminder}
use naza.Words.Product.{mul128_portable-mul128}
use naza.Words.Quotient.{div128_32_exact}

abbrev top : ℕ
top = 2 ^ 64 - 1

largest : (mul128_portable top top).hi ≡ 2 ^ 64 - 2
unfolding mul128_portable
largest = refl

long_division_run : (div128_32 5 7 3).quotient_hi ≡ 1
unfolding div128_32 div_with_reminder
long_division_run = refl

mul128_portable-mul128_example : mul128_portable top 12345 ≡ mul128 top 12345
mul128_portable-mul128_example = mul128_portable-mul128 top 12345 (omega arith) (omega arith)

div128_32_exact_example :
    let q = div128_32 5 7 3 in
    (5 * 2 ^ 64 + 7 ≡ (q.quotient_hi * 2 ^ 64 + q.quotient_lo) * 3 + q.remainder)
    × (q.remainder < 3)
    × IsU64 q.quotient_hi
    × IsU64 q.quotient_lo
div128_32_exact_example =
    div128_32_exact 5 7 3 (omega arith) (omega arith) (omega arith) (omega arith)
