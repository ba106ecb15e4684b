-- ===== src/Difficulty.antt =====
-- Core/Difficulty.cpp: does a hash meet a difficulty? A hash is its four little-endian words, as
-- `swap64le` reads them.
pub mod Check
mod Tests
use naza.Common.{ℕ, ◌+◌, ◌-◌, ◌*◌, ◌%◌, ◌^◌, Bool, true, false, not, ◌&&◌, ◌||◌}
use naza.Common.{ltb, ◌==◌, if◌then◌else◌}
use naza.Words.{Wide, mul128}

-- `a + b < a` in 64 bits.
abbrev pub cadd : ℕ → ℕ → Bool
cadd a b = ltb ((a + b) % 2 ^ 64) a

-- `a + b < a || (c && a + b == (uint64_t)-1)`.
abbrev pub cadc : ℕ → ℕ → Bool → Bool
cadc a b c = ltb ((a + b) % 2 ^ 64) a || (c && (a + b) % 2 ^ 64 == 2 ^ 64 - 1)

pub record HashWords : Type 0 where
  pub w0 : ℕ
  pub w1 : ℕ
  pub w2 : ℕ
  pub w3 : ℕ

-- The carries between the words of the product; the lowest word is not used.
abbrev pub carry_chain : Wide → Wide → Wide → Wide → Bool
carry_chain p0 p1 p2 p3 =
    let carry1 = cadd p0.hi p1.lo in let carry2 = cadc p1.hi p2.lo carry1 in cadc p2.hi p3.lo carry2

unfoldable pub check_hash : HashWords → ℕ → Bool
check_hash hash difficulty =
    let p3 = mul128 hash.w3 difficulty in
    if not (p3.hi == 0)
    then false
    else not (
        carry_chain (mul128 hash.w0 difficulty) (mul128 hash.w1 difficulty)
          (mul128 hash.w2 difficulty) p3)
