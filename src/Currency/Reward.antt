-- ===== src/Currency/Reward.antt =====
-- The penalty for large blocks, the reward and the supply.
use native.Mathlib.Decide.{dec_lt}
use native.Mathlib.Nat.{mod-eq_of_lt}
use naza.Common.{ℕ, zero, suc, ◌+◌, ◌-◌, ◌*◌, ◌/◌, ◌%◌, ◌^◌, ◌≤◌, ◌<◌}
use naza.Common.{◌≡◌, refl, sym, ap, ◌∙◌, arith}
use naza.Common.{false, leb, ◌==◌}
use mathlib.Core.Path.{ap₂}
use native.Mathlib.Nat.{
  div-eq_of_lt-le, div-div-eq-div-mul, mul-le-mul, div-lt_iff_lt-mul, div-le_self,
}
use native.Mathlib.Nat.{mul-lt-mul_of_pos_left}
use naza.Words.{IsU64, IsU32, mul128, div128_32}
use naza.Words.Product.{mul128_exact, mul128-IsU64}
use naza.Words.Quotient.{div128_32_exact}
use naza.Currency.{Currency, calc_base_reward, get_penalized_amount, get_block_reward}

quotient_of : (n q d r : ℕ) → n ≡ q * d + r → r < d → n / d ≡ q
quotient_of n q d r e h = div-eq_of_lt-le {k = q} d {m = n} (omega arith) (omega arith)

difference : (k j : ℕ) → 0 < k → (k + j + k) * j < (k + j) * (k + j)
difference k j h = omega (arith, mul-le-mul {n₁ = 1} {m₁ = 1} {n₂ = k} {m₂ = k} h h)

-- Above the median and up to twice the median, the factor is below the median squared.
factor_bound : (m c : ℕ) → m < c → c ≤ 2 * m → c * (2 * m - c) < m * m
factor_bound m c lo hi =
    let k = c - m in
    let j = 2 * m - c in
    let c_eq : c ≡ k + j + k = omega arith in
    let m_eq : m ≡ k + j = omega arith in
    omega (
      arith,
      difference k j (omega arith),
      ap (λ (t : ℕ). t * j) c_eq,
      ap₂ (λ (s t : ℕ). s * t) m_eq m_eq,
    )

penalty_below : (amount f d : ℕ) → IsU64 amount → f < d → amount * f / d < 2 ^ 64
penalty_below amount f d ha h =
    (div-lt_iff_lt-mul {k = d} {x = amount * f} {y = 2 ^ 64} (omega arith)).1 (grind arith)

penalty_smaller : (amount f d : ℕ) → 0 < amount → f < d → amount * f / d < amount
penalty_smaller amount f d pos h =
    (div-lt_iff_lt-mul {k = d} {x = amount * f} {y = amount} (omega arith)).1
      (mul-lt-mul_of_pos_left h pos)

-- The two long divisions divide by the median squared, and the high word is zero.
two_divisions :
    (amount f m : ℕ)
    → IsU64 amount
    → IsU64 f
    → IsU32 m
    → 0 < m
    → f < m * m
    → let product = mul128 amount f in
      let once = div128_32 product.hi product.lo (m % 2 ^ 32) in
      let twice = div128_32 once.quotient_hi once.quotient_lo (m % 2 ^ 32) in
      (twice.quotient_lo ≡ amount * f / (m * m)) × (twice.quotient_hi ≡ 0)
two_divisions amount f m ha hf hm pos small =
    let product = mul128 amount f in
    let (lo64, hi64) = mul128-IsU64 amount f ha hf in
    let once = div128_32 product.hi product.lo m in
    let (e1, r1, a1, b1) = div128_32_exact product.hi product.lo m hi64 lo64 hm pos in
    let twice = div128_32 once.quotient_hi once.quotient_lo m in
    let (e2, r2, a2, b2) = div128_32_exact once.quotient_hi once.quotient_lo m a1 b1 hm pos in
    let q1 = once.quotient_hi * 2 ^ 64 + once.quotient_lo in
    let q2 = twice.quotient_hi * 2 ^ 64 + twice.quotient_lo in
    let first : amount * f / m ≡ q1 =
      quotient_of (amount * f) q1 m once.remainder (sym (mul128_exact amount f) ∙ e1) r1 in
    let second : q1 / m ≡ q2 = quotient_of q1 q2 m twice.remainder e2 r2 in
    let both : amount * f / (m * m) ≡ q2 =
      sym (div-div-eq-div-mul (amount * f) m m) ∙ ap (λ (t : ℕ). t / m) first ∙ second in
    let below = penalty_below amount f (m * m) ha small in
    rw (mod-eq_of_lt hm) (omega arith, omega arith)

-- For a positive 64-bit amount and a block size above a positive median and at most twice the
-- median, both of 32 bits, the penalized amount is the quotient by the median squared, rounded
-- down, and smaller than the amount, as the asserts of the code say.
pub get_penalized_amount_exact :
    (amount m c : ℕ)
    → IsU64 amount
    → IsU32 m
    → IsU32 c
    → 0 < amount
    → 0 < m
    → m < c
    → c ≤ 2 * m
    → (get_penalized_amount amount m c ≡ amount * (c * (2 * m - c)) / (m * m))
      × (get_penalized_amount amount m c < amount)
unfolding get_penalized_amount
get_penalized_amount_exact amount m c ha hm hc pos mpos lo hi =
    let f = c * (2 * m - c) in
    let bound = factor_bound m c lo hi in
    let square =
      mul-le-mul {n₁ = m} {m₁ = m} {n₂ = 2 ^ 32 - 1} {m₂ = 2 ^ 32 - 1} (omega arith)
        (omega arith) in
    let factor : (2 * m + 2 ^ 64 - c) % 2 ^ 64 ≡ 2 * m - c = omega arith in
    let word : f % 2 ^ 64 ≡ f = mod-eq_of_lt (omega arith) in
    let (exact, high) = two_divisions amount f m ha (omega arith) hm mpos bound in
    let below = penalty_smaller amount f (m * m) pos bound in
    let some_amount : (amount == 0) ≡ false = ground arith in
    let large : leb c m ≡ false = ground arith in
    let value : get_penalized_amount amount m c ≡ amount * f / (m * m) =
      unfold get_penalized_amount in rw (some_amount, large, factor, word, exact) refl in
    (value, rw value below)

-- No branch of the penalty pays more than the amount.
pub get_penalized_amount_le :
    (amount m c : ℕ)
    → IsU64 amount
    → IsU32 m
    → IsU32 c
    → 0 < m
    → c ≤ 2 * m
    → get_penalized_amount amount m c ≤ amount
get_penalized_amount_le zero m c ha hm hc pos h = unfold get_penalized_amount in omega arith
get_penalized_amount_le (suc amount) m c ha hm hc pos h = elim (dec_lt m c) [
  | yes p ↦
      omega (arith, (get_penalized_amount_exact (suc amount) m c ha hm hc (omega arith) pos p h).1)
  | no p ↦ unfold get_penalized_amount in ground arith
]

-- A block within the median is not penalized.
pub get_penalized_amount_full : (amount m c : ℕ) → c ≤ m → get_penalized_amount amount m c ≡ amount
unfolding get_penalized_amount
get_penalized_amount_full amount m c h = ground arith

-- The base reward leaves the supply at least what is shifted out of it.
calc_base_reward_le :
    (c : Currency) (version already : ℕ)
    → IsU64 c.money_supply
    → already ≤ c.money_supply
    → calc_base_reward c version already ≤ c.money_supply - already
unfolding calc_base_reward
calc_base_reward_le c version already hs h =
    let rest : (c.money_supply + 2 ^ 64 - already) % 2 ^ 64 ≡ c.money_supply - already =
      omega arith in
    rw rest (ground (arith, div-le_self (c.money_supply - already) (2 ^ c.emission_speed_factor)))

-- What the callers of `get_block_reward` see to, as its asserts say.
pub record IsBlock (c : Currency) (median size already fee : ℕ) : Type 0 where
  pub supply_word : IsU64 c.money_supply
  pub supply_left : already ≤ c.money_supply
  pub fee_word : IsU64 fee
  pub median_word : IsU32 median
  pub median_pos : 0 < median
  pub size_word : IsU32 size
  pub size_limit : size ≤ 2 * median

module _ (c : Currency) (version median size already fee : ℕ)
    (ok : IsBlock c median size already fee) where
  base_word : IsU64 (calc_base_reward c version already)
  base_word =
      omega
        (arith, ok.supply_word, calc_base_reward_le c version already ok.supply_word ok.supply_left)

  base_penalized :
      get_penalized_amount (calc_base_reward c version already) median size
      ≤ calc_base_reward c version already
  base_penalized =
      get_penalized_amount_le (calc_base_reward c version already) median size base_word
        ok.median_word ok.size_word ok.median_pos ok.size_limit

  fee_penalized : get_penalized_amount fee median size ≤ fee
  fee_penalized =
      get_penalized_amount_le fee median size ok.fee_word ok.median_word ok.size_word ok.median_pos
        ok.size_limit

  -- For a block that keeps the asserts of `get_block_reward`, the reward is what the block adds to
  -- the supply and all its fees, modulo 2^64.
  pub reward-emission_change :
      let r = get_block_reward c version median size already fee in
      r.reward ≡ (r.emission_change + fee) % 2 ^ 64
  unfolding get_block_reward
  reward-emission_change = ground (arith, base_word, base_penalized, fee_penalized, ok.fee_word)

  -- For a block that keeps the asserts of `get_block_reward` and whose new coins, after the
  -- penalty, are at least the fees that the penalty burns, the emission is not negative and at
  -- most the base reward, and the supply stays within its limit.
  pub supply_bounded :
      fee - get_penalized_amount fee median size
        ≤ get_penalized_amount (calc_base_reward c version already) median size
      → let r = get_block_reward c version median size already fee in
        (r.emission_change ≤ calc_base_reward c version already)
        × (already + r.emission_change ≤ c.money_supply)
  unfolding get_block_reward
  supply_bounded burnt =
      let left = calc_base_reward_le c version already ok.supply_word ok.supply_left in
      let emission : (get_block_reward c version median size already fee).emission_change
          ≤ calc_base_reward c version already =
        ground (arith, base_word, base_penalized, fee_penalized, ok.fee_word) in
      (emission, omega (arith, emission, left, ok.supply_left))
