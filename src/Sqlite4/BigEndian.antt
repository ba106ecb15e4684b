-- ===== src/Sqlite4/BigEndian.antt =====
-- Big-endian bytes: reading back what was stored, and the order of the bytes.
use native.Mathlib.Decide.{dec_lt}
use native.Mathlib.Nat.{pow-suc, pow-le-pow_right, mod-eq_of_lt, div-div-eq-div-mul}
use naza.Common.{ℕ, zero, suc, ◌+◌, ◌*◌, ◌/◌, ◌%◌, ◌^◌, ◌≤◌, ◌<◌, bit_or}
use naza.Common.{◌≡◌, refl, sym, ap, ◌∙◌, arith}
use naza.Common.{Bool, true, false, ◌&&◌, ◌||◌, ltb, ◌==◌}
use naza.Common.{List, [], ◌∷◌, ◌++◌}
use naza.Common.{length, length-append, drop, All}
use naza.Common.{All-append, IsByte}
use mathlib.Core.Path.{ap₂, subst}
use naza.Common.Powers.{pow-add}
use naza.Common.Bits.{shifted-bit_or}
use naza.Sqlite4.{uint_be_loop, uint_be_to_bytes}

pub length-uint_be_to_bytes : (n v : ℕ) → length (uint_be_to_bytes n v) ≡ n
unfolding uint_be_to_bytes
length-uint_be_to_bytes zero v = refl
length-uint_be_to_bytes (suc n) v = omega (
  arith,
  length-append (uint_be_to_bytes n (v / 256)) ((v % 256) ∷ []),
  length-uint_be_to_bytes n (v / 256),
)

uint_be_loop-append :
    (acc : ℕ) (xs ys : List ℕ) → uint_be_loop acc (xs ++ ys) ≡ uint_be_loop (uint_be_loop acc xs) ys
unfolding uint_be_loop
uint_be_loop-append acc [] ys = refl
uint_be_loop-append acc (x ∷ xs) ys = uint_be_loop-append (bit_or (acc * 256 % 2 ^ 64) x) xs ys

-- One byte more on the right.
uint_be_loop-one : (acc b : ℕ) → acc < 2 ^ 56 → b < 256 → uint_be_loop acc (b ∷ []) ≡ acc * 256 + b
unfolding uint_be_loop
uint_be_loop-one acc b h hb =
    ap (λ (t : ℕ). bit_or t b) (mod-eq_of_lt (omega arith))
    ∙ shifted-bit_or 8 b acc hb
    ∙ omega arith

byte_power : (v n : ℕ) → n < 8 → v < 256 ^ suc n → v < 256 ^ 8
byte_power v n hn hv =
    omega (arith, pow-le-pow_right (zero_lt 255) {i = suc n} {j = 8} (omega arith))
  where
    zero_lt : (k : ℕ) → 0 < suc k
    zero_lt k = omega arith

pub uint_be_loop-to_bytes :
    (n v : ℕ) → n ≤ 8 → v < 256 ^ n → uint_be_loop 0 (uint_be_to_bytes n v) ≡ v
unfolding uint_be_to_bytes
uint_be_loop-to_bytes zero v hn hv = unfold uint_be_loop in omega arith
uint_be_loop-to_bytes (suc n) v hn hv =
    uint_be_loop-append 0 (uint_be_to_bytes n (v / 256)) ((v % 256) ∷ [])
    ∙ ap (λ t. uint_be_loop t ((v % 256) ∷ []))
        (uint_be_loop-to_bytes n (v / 256) (omega arith) (omega (arith, pow-suc 256 n)))
    ∙ uint_be_loop-one (v / 256) (v % 256) (omega (arith, byte_power v n hn hv)) (omega arith)
    ∙ omega arith

-- The order of byte strings by which the database sorts its keys.
unfoldable pub bytes_lt : List ℕ → List ℕ → Bool
bytes_lt xs [] = false
bytes_lt [] (y ∷ ys) = true
bytes_lt (x ∷ xs) (y ∷ ys) = ltb x y || (x == y && bytes_lt xs ys)

pub bytes_lt-append_left : (xs ys zs : List ℕ) → bytes_lt (xs ++ ys) (xs ++ zs) ≡ bytes_lt ys zs
unfolding bytes_lt
bytes_lt-append_left [] ys zs = refl
bytes_lt-append_left (x ∷ xs) ys zs = ground (arith, bytes_lt-append_left xs ys zs)

pub bytes_lt-append_right :
    (xs ys us vs : List ℕ)
    → length xs ≡ length ys
    → bytes_lt xs ys ≡ true
    → bytes_lt (xs ++ us) (ys ++ vs) ≡ true
unfolding bytes_lt
bytes_lt-append_right [] [] us vs h lt = absurd (cc)
bytes_lt-append_right [] (y ∷ ys) us vs h lt = absurd (omega arith)
bytes_lt-append_right (x ∷ xs) [] us vs h lt = absurd (omega arith)
bytes_lt-append_right (x ∷ xs) (y ∷ ys) us vs h lt =
    ground (arith, bytes_lt-append_right xs ys us vs)

pub bytes_lt-uint_be :
    (n v w : ℕ)
    → v < w
    → w < 256 ^ n
    → bytes_lt (uint_be_to_bytes n v) (uint_be_to_bytes n w) ≡ true
unfolding uint_be_to_bytes
bytes_lt-uint_be zero v w h hw = absurd (omega arith)
bytes_lt-uint_be (suc n) v w h hw = elim (dec_lt (v / 256) (w / 256)) [
  | yes p ↦
      bytes_lt-append_right _ _ _ _
        (length-uint_be_to_bytes n (v / 256) ∙ sym (length-uint_be_to_bytes n (w / 256)))
        (bytes_lt-uint_be n (v / 256) (w / 256) p (omega (arith, pow-suc 256 n)))
  | no p ↦
      let same : v / 256 ≡ w / 256 = omega arith in
      rw same (
        bytes_lt-append_left (uint_be_to_bytes n (w / 256)) ((v % 256) ∷ []) ((w % 256) ∷ [])
        ∙ unfold bytes_lt in ground arith)
]

-- The same bytes from the front.
pub uint_be_to_bytes-cons :
    (n v : ℕ) → uint_be_to_bytes (suc n) v ≡ (v / 256 ^ n % 256) ∷ uint_be_to_bytes n v
unfolding uint_be_to_bytes
uint_be_to_bytes-cons zero v = ground arith
uint_be_to_bytes-cons (suc n) v =
    ground
      (arith, uint_be_to_bytes-cons n (v / 256), div-div-eq-div-mul v 256 (256 ^ n), pow-suc 256 n)

pub drop-uint_be_to_bytes : (k n v : ℕ) → drop k (uint_be_to_bytes (k + n) v) ≡ uint_be_to_bytes n v
drop-uint_be_to_bytes zero n v = ap (λ (t : ℕ). uint_be_to_bytes t v) (omega arith)
drop-uint_be_to_bytes (suc k) n v =
    let front : uint_be_to_bytes (suc k + n) v
        ≡ (v / 256 ^ (k + n) % 256) ∷ uint_be_to_bytes (k + n) v =
      ap (λ (t : ℕ). uint_be_to_bytes t v) (omega arith) ∙ uint_be_to_bytes-cons (k + n) v in
    ap (drop (suc k)) front ∙ drop-uint_be_to_bytes k n v

next_byte : (acc b k : ℕ) → IsByte b → acc < 256 ^ k → acc * 256 + b < 256 ^ (k + 1)
next_byte acc b k hb ha = omega (arith, pow-add 256 k 1)

add_byte :
    (acc b k : ℕ) → IsByte b → k < 8 → acc < 256 ^ k → bit_or (acc * 256 % 2 ^ 64) b ≡ acc * 256 + b
add_byte acc b k hb hk ha =
    let room : acc < 2 ^ 56 = omega (arith, power_most k hk) in
    ap (λ (t : ℕ). bit_or t b) (mod-eq_of_lt (omega arith))
    ∙ shifted-bit_or 8 b acc hb
    ∙ omega arith
  where
    power_most : (k : ℕ) → k < 8 → 256 ^ k ≤ 2 ^ 56
    power_most k h = pow-le-pow_right {n = 256} (omega arith) {i = k} {j = 7} (omega arith)

-- Reading bytes in: what was there before ends up in front of them.
pub uint_be_loop_value :
    (bs : List ℕ) (k acc : ℕ)
    → All IsByte bs
    → k + length bs ≤ 8
    → acc < 256 ^ k
    → (uint_be_loop acc bs / 256 ^ length bs ≡ acc) × (uint_be_loop acc bs < 256 ^ (k + length bs))
unfolding uint_be_loop
uint_be_loop_value [] k acc h hk ha = (omega arith, ground arith)
uint_be_loop_value (b ∷ bs) k acc h hk ha =
    let n = length bs in
    let next : bit_or (acc * 256 % 2 ^ 64) b ≡ acc * 256 + b =
      add_byte acc b k h.0 (omega arith) ha in
    let (front, below) =
      uint_be_loop_value bs (k + 1) (acc * 256 + b) h.1 (omega arith) (next_byte acc b k h.0 ha) in
    rw next (
      ap (λ (t : ℕ). uint_be_loop (acc * 256 + b) bs / t) (pow-suc 256 n)
          ∙ sym (div-div-eq-div-mul (uint_be_loop (acc * 256 + b) bs) (256 ^ n) 256)
          ∙ ap (λ (t : ℕ). t / 256) front
          ∙ quotient acc b h.0,
      subst (λ (t : ℕ). uint_be_loop (acc * 256 + b) bs < 256 ^ t) (regroup k n) below,
    )
  where
    quotient : (acc b : ℕ) → IsByte b → (acc * 256 + b) / 256 ≡ acc
    quotient acc b h = omega arith

    regroup : (k n : ℕ) → k + 1 + n ≡ k + suc n
    regroup k n = omega arith

pub uint_be_to_bytes-loop :
    (bs : List ℕ) (k acc : ℕ)
    → All IsByte bs
    → k + length bs ≤ 8
    → acc < 256 ^ k
    → uint_be_to_bytes (length bs) (uint_be_loop acc bs) ≡ bs
uint_be_to_bytes-loop [] k acc h hk ha = unfold uint_be_to_bytes in refl
uint_be_to_bytes-loop (b ∷ bs) k acc h hk ha =
    let next : bit_or (acc * 256 % 2 ^ 64) b ≡ acc * 256 + b =
      add_byte acc b k h.0 (omega arith) ha in
    let small = next_byte acc b k h.0 ha in
    let value = uint_be_loop_value bs (k + 1) (acc * 256 + b) h.1 (omega arith) small in
    let tail = uint_be_to_bytes-loop bs (k + 1) (acc * 256 + b) h.1 (omega arith) small in
    let entered : uint_be_loop acc (b ∷ bs) ≡ uint_be_loop (acc * 256 + b) bs =
      unfold uint_be_loop in ap (λ (t : ℕ). uint_be_loop t bs) next in
    ap (uint_be_to_bytes (suc (length bs))) entered
    ∙ uint_be_to_bytes-cons (length bs) (uint_be_loop (acc * 256 + b) bs)
    ∙ ap₂ (λ (x : ℕ) (xs : List ℕ). x ∷ xs) (ap (λ (t : ℕ). t % 256) (value.0) ∙ last acc b h.0)
        tail
  where
    last : (acc b : ℕ) → IsByte b → (acc * 256 + b) % 256 ≡ b
    last acc b h = omega arith

pub uint_be_to_bytes-IsByte : (n v : ℕ) → All IsByte (uint_be_to_bytes n v)
unfolding uint_be_to_bytes
uint_be_to_bytes-IsByte zero v = tt
uint_be_to_bytes-IsByte (suc n) v =
    All-append IsByte (uint_be_to_bytes n (v / 256)) ((v % 256) ∷ [])
      (uint_be_to_bytes-IsByte n (v / 256)) (omega arith, tt)
