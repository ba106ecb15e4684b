-- ===== src/Common/Powers.antt =====
-- Powers of two: the arithmetic of shifts.
use Prim.Native.Nat.{ℕ, zero, suc, ◌+◌, ◌-◌, ◌*◌, ◌^◌, ◌≤◌, ◌<◌}
use Prim.Native.Nat.add
use mathlib.Core.Path.{◌≡◌, refl, ap, ◌∙◌}
use native.Mathlib.Nat.{pow-zero, pow-suc, one-le-pow, pow-le-pow_right, lt_of_mul-lt-mul_right}
use native.Mathlib.Decide.{dec_le}
use native.Mathlib.Omega.{arith}

pub pow-add : (b m n : ℕ) → b ^ (m + n) ≡ b ^ m * b ^ n
pow-add b zero n =
    ap (λ (t : ℕ). b ^ t) (add.zero n) ∙ omega (arith, ap (λ (t : ℕ). t * b ^ n) (pow-zero b))
pow-add b (suc m) n =
    ap (λ (t : ℕ). b ^ t) (add.suc m n)
    ∙ omega (
      arith,
      pow-suc b (m + n),
      ap (λ (t : ℕ). t * b) (pow-add b m n),
      ap (λ (t : ℕ). t * b ^ n) (pow-suc b m),
    )

pub pow_mono : (m n : ℕ) → m ≤ n → 2 ^ m ≤ 2 ^ n
pow_mono m n h = pow-le-pow_right (omega arith) h

pub pow_pos : (n : ℕ) → 1 ≤ 2 ^ n
pow_pos n = one-le-pow n 2 (omega arith)

pub pow_split : (m n : ℕ) → m ≤ n → 2 ^ (n - m) * 2 ^ m ≡ 2 ^ n
pow_split m n h = grind (arith, pow-add 2 (n - m) m, ap (λ (t : ℕ). 2 ^ t) (restored h))
  where
    restored : m ≤ n → n - m + m ≡ n
    restored h = omega arith

-- What is shifted to bit `s` and stays below bit `b` has at most `b - s` bits.
pub shifted-lt : (b s x : ℕ) → x * 2 ^ s < 2 ^ b → x < 2 ^ (b - s)
shifted-lt b s zero h = pow_pos (b - s)
shifted-lt b s (suc x) h = elim (dec_le s b) [
  | yes p ↦ lt_of_mul-lt-mul_right (2 ^ s) (grind (arith, pow_split s b p))
  | no p ↦ absurd (grind (arith, pow_mono b s (omega arith)))
]

-- A byte is eight bits.
pub pow_bytes : (n : ℕ) → 2 ^ (8 * n) ≡ 256 ^ n
pow_bytes zero = refl
pow_bytes (suc n) =
    ap (λ (t : ℕ). 2 ^ t) (more n) ∙ omega (arith, pow-add 2 (8 * n) 8, pow_bytes n, pow-suc 256 n)
  where
    more : (n : ℕ) → 8 * suc n ≡ 8 * n + 8
    more n = omega arith
