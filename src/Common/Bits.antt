-- ===== src/Common/Bits.antt =====
-- Masks and shifts as arithmetic: byte masks by tables, `bit_or` with a shifted value at every width.
use Prim.Native.Nat.{ℕ, zero, suc, ◌+◌, ◌*◌, ◌/◌, ◌%◌, ◌^◌, ◌≤◌, ◌<◌, max, min, bit_and, bit_or}
use Prim.Native.Nat.{digits, bit_or-bitwise, bit_and-bitwise}
use mathlib.Core.Path.{◌≡◌, refl, ap}
use mathlib.Core.Bool.{Bool, true, ◌&&◌}
use native.Mathlib.Nat.{pow-suc}
use native.Mathlib.Omega.{arith}
use naza.Common.Tests.{◌==◌, ==→eq}

-- What the native `bit_or` stands for, with the fuel of its digit recursion left open.
abbrev or_digits : ℕ → ℕ → ℕ → ℕ
or_digits fuel a b = digits (λ y. y) max fuel a b

or_digits_enough : (f g a b : ℕ) → a ≤ f → a ≤ g → or_digits f a b ≡ or_digits g a b
or_digits_enough zero zero a b p q = refl
or_digits_enough zero (suc g) zero b p q = refl
or_digits_enough (suc f) zero zero b p q = refl
or_digits_enough (suc f) (suc g) zero b p q = refl
or_digits_enough zero g (suc a) b p q = absurd (omega arith)
or_digits_enough (suc f) zero (suc a) b p q = absurd (omega arith)
or_digits_enough (suc f) (suc g) (suc a) b p q =
    omega (arith, or_digits_enough f g (suc a / 2) (b / 2) (omega arith) (omega arith))

zero-bit_or : (b : ℕ) → bit_or 0 b ≡ b
zero-bit_or b = bit_or-bitwise 0 b

-- The lowest binary digit of `a | b`, and the rest.
bit_or_halve : (a b : ℕ) → bit_or a b ≡ bit_or (a / 2) (b / 2) * 2 + max (a % 2) (b % 2)
bit_or_halve zero b = omega (arith, zero-bit_or b, zero-bit_or (b / 2))
bit_or_halve (suc a) b = omega (
  arith,
  bit_or-bitwise (suc a) b,
  bit_or-bitwise (suc a / 2) (b / 2),
  or_digits_enough a (suc a / 2) (suc a / 2) (b / 2) (omega arith) (omega arith),
)

bit_or-zero_below : (n a : ℕ) → a ≤ n → bit_or a 0 ≡ a
bit_or-zero_below n zero h = refl
bit_or-zero_below zero (suc a) h = absurd (omega arith)
bit_or-zero_below (suc n) (suc a) h =
    omega (arith, bit_or_halve (suc a) 0, bit_or-zero_below n (suc a / 2) (omega arith))

double_shift : (x s : ℕ) → x * 2 ^ suc s ≡ x * 2 ^ s + x * 2 ^ s
double_shift x s = omega (arith, ap (λ (t : ℕ). x * t) (pow-suc 2 s))

-- `low | (x << s)` adds, where `low` has no bit at `s` or above.
pub bit_or-shifted : (s low x : ℕ) → low < 2 ^ s → bit_or low (x * 2 ^ s) ≡ low + x * 2 ^ s
bit_or-shifted zero zero x h = omega (arith, zero-bit_or (x * 2 ^ 0))
bit_or-shifted zero (suc low) x h = absurd (omega arith)
bit_or-shifted (suc s) low x h = ground (
  arith,
  bit_or_halve low (x * 2 ^ suc s),
  double_shift x s,
  pow-suc 2 s,
  bit_or-shifted s (low / 2) x (omega (arith, pow-suc 2 s)),
)

-- `(x << s) | low` adds too.
pub shifted-bit_or : (s low x : ℕ) → low < 2 ^ s → bit_or (x * 2 ^ s) low ≡ low + x * 2 ^ s
shifted-bit_or zero zero x h = omega (arith, bit_or-zero_below (x * 1) (x * 1) (omega arith))
shifted-bit_or zero (suc low) x h = absurd (omega arith)
shifted-bit_or (suc s) low x h = ground (
  arith,
  bit_or_halve (x * 2 ^ suc s) low,
  double_shift x s,
  pow-suc 2 s,
  shifted-bit_or s (low / 2) x (omega (arith, pow-suc 2 s)),
)

-- The same for `bit_and`, as far as a mask of one bit needs it.
abbrev and_digits : ℕ → ℕ → ℕ → ℕ
and_digits fuel a b = digits (λ y. zero) min fuel a b

and_digits_enough : (f g a b : ℕ) → a ≤ f → a ≤ g → and_digits f a b ≡ and_digits g a b
and_digits_enough zero zero a b p q = refl
and_digits_enough zero (suc g) zero b p q = refl
and_digits_enough (suc f) zero zero b p q = refl
and_digits_enough (suc f) (suc g) zero b p q = refl
and_digits_enough zero g (suc a) b p q = absurd (omega arith)
and_digits_enough (suc f) zero (suc a) b p q = absurd (omega arith)
and_digits_enough (suc f) (suc g) (suc a) b p q =
    omega (arith, and_digits_enough f g (suc a / 2) (b / 2) (omega arith) (omega arith))

zero-bit_and : (b : ℕ) → bit_and 0 b ≡ 0
zero-bit_and b = bit_and-bitwise 0 b

bit_and_halve : (a b : ℕ) → bit_and a b ≡ bit_and (a / 2) (b / 2) * 2 + min (a % 2) (b % 2)
bit_and_halve zero b = omega (arith, zero-bit_and b, zero-bit_and (b / 2))
bit_and_halve (suc a) b = omega (
  arith,
  bit_and-bitwise (suc a) b,
  bit_and-bitwise (suc a / 2) (b / 2),
  and_digits_enough a (suc a / 2) (suc a / 2) (b / 2) (omega arith) (omega arith),
)

bit_and-zero_below : (n a : ℕ) → a ≤ n → bit_and a 0 ≡ 0
bit_and-zero_below n zero h = refl
bit_and-zero_below zero (suc a) h = absurd (omega arith)
bit_and-zero_below (suc n) (suc a) h =
    omega (arith, bit_and_halve (suc a) 0, bit_and-zero_below n (suc a / 2) (omega arith))

pub bit_and-one : (a : ℕ) → bit_and a 1 ≡ a % 2
bit_and-one a = omega (arith, bit_and_halve a 1, bit_and-zero_below (a / 2) (a / 2) (omega arith))

-- A statement about every byte is checked by evaluation.
abbrev pub holds_below : ℕ → (ℕ → Bool) → Bool
holds_below zero p = true
holds_below (suc n) p = p n && holds_below n p

pub holds_below_sound : (n : ℕ) (p : ℕ → Bool) (x : ℕ) → holds_below n p ≡ true → x < n → p x ≡ true
holds_below_sound zero p x h lt = absurd (omega arith)
holds_below_sound (suc n) p x h lt = ground (arith, holds_below_sound n p x)

-- Two functions that agree on a table of values are equal on its range.
pub eq_of_table :
    (n : ℕ) (f g : ℕ → ℕ) → holds_below n (λ x. f x == g x) ≡ true → (x : ℕ) → x < n → f x ≡ g x
eq_of_table n f g h x lt = ==→eq (f x) (g x) (holds_below_sound n (λ y. f y == g y) x h lt)

-- The masks of one byte that the varint and hexadecimal code use.
pub low_seven : (b : ℕ) → b < 256 → bit_and b 0x7f ≡ b % 128
low_seven = eq_of_table 256 (λ b. bit_and b 0x7f) (λ b. b % 128) refl

pub top_bit : (b : ℕ) → b < 256 → bit_and b 0x80 ≡ b / 128 * 128
top_bit = eq_of_table 256 (λ b. bit_and b 0x80) (λ b. b / 128 * 128) refl

pub set_top : (b : ℕ) → b < 128 → bit_or b 0x80 ≡ b + 128
set_top = eq_of_table 128 (λ b. bit_or b 0x80) (λ b. b + 128) refl

pub low_four : (b : ℕ) → b < 256 → bit_and b 15 ≡ b % 16
low_four = eq_of_table 256 (λ b. bit_and b 15) (λ b. b % 16) refl
