-- ===== src/Difficulty/Check.antt =====
-- `check_hash` compares the 256-bit hash times the difficulty with 2^256.
use naza.Common.{ℕ, ◌+◌, ◌*◌, ◌^◌, ◌<◌}
use naza.Common.{◌≡◌, ◌↔◌, arith}
use naza.Common.{true, false}
use naza.Words.{IsU64, mul128}
use naza.Words.Product.{mul128_exact, mul128-IsU64}
use naza.Difficulty.{HashWords, carry_chain, check_hash}

-- The number that the words stand for.
abbrev pub value : HashWords → ℕ
value h = h.w0 + h.w1 * 2 ^ 64 + h.w2 * 2 ^ 128 + h.w3 * 2 ^ 192

abbrev pub AreWords : HashWords → Type 0
AreWords h = IsU64 h.w0 × IsU64 h.w1 × IsU64 h.w2 × IsU64 h.w3

-- The carry out of the four products is the overflow of their sum.
carry_chain_iff :
    (l0 h0 l1 h1 l2 h2 l3 : ℕ)
    → IsU64 l0
    → IsU64 h0
    → IsU64 l1
    → IsU64 h1
    → IsU64 l2
    → IsU64 h2
    → IsU64 l3
    → (carry_chain
          (record { lo = l0; hi = h0 })
          (record { lo = l1; hi = h1 })
          (record { lo = l2; hi = h2 })
          (record { lo = l3; hi = 0 })
        ≡ false)
      ↔ (l0 + (h0 + l1) * 2 ^ 64 + (h1 + l2) * 2 ^ 128 + (h2 + l3) * 2 ^ 192 < 2 ^ 256)
carry_chain_iff l0 h0 l1 h1 l2 h2 l3 a b c d e f g = (λ h. ground arith, λ h. ground arith)

-- The words' products add up to the product of the hash.
sum_of_products :
    (h : HashWords) (d : ℕ)
    → let p0 = mul128 h.w0 d in
      let p1 = mul128 h.w1 d in
      let p2 = mul128 h.w2 d in
      let p3 = mul128 h.w3 d in
      value h * d
      ≡ p0.lo
        + (p0.hi + p1.lo) * 2 ^ 64
        + (p1.hi + p2.lo) * 2 ^ 128
        + (p2.hi + p3.lo) * 2 ^ 192
        + p3.hi * 2 ^ 256
sum_of_products h d =
    omega
      (arith, mul128_exact h.w0 d, mul128_exact h.w1 d, mul128_exact h.w2 d, mul128_exact h.w3 d)

-- A hash of four 64-bit words passes a 64-bit difficulty exactly when its value times the
-- difficulty is below 2^256.
pub check_hash_iff :
    (h : HashWords) (d : ℕ)
    → AreWords h
    → IsU64 d
    → (check_hash h d ≡ true) ↔ (value h * d < 2 ^ 256)
unfolding check_hash
check_hash_iff h d (a0, a1, a2, a3) hd =
    let (x0, y0) = mul128-IsU64 h.w0 d a0 hd in
    let (x1, y1) = mul128-IsU64 h.w1 d a1 hd in
    let (x2, y2) = mul128-IsU64 h.w2 d a2 hd in
    let (x3, y3) = mul128-IsU64 h.w3 d a3 hd in
    let chain =
      carry_chain_iff (mul128 h.w0 d).lo (mul128 h.w0 d).hi (mul128 h.w1 d).lo (mul128 h.w1 d).hi
        (mul128 h.w2 d).lo (mul128 h.w2 d).hi (mul128 h.w3 d).lo x0 y0 x1 y1 x2 y2 x3 in
    (
      λ p. ground (arith, sum_of_products h d, chain),
      λ p. ground (arith, sum_of_products h d, chain),
    )
