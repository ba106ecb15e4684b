-- ===== src/Base58/Digits.antt =====
-- Numbers in base 58: what the two loops write and read.
use mathlib.Core.List.{append_assoc}
use native.Mathlib.Nat.{pow-suc, div-add-mod, mod-eq_of_lt}
use naza.Common.{ℕ, zero, suc, ◌+◌, ◌*◌, ◌/◌, ◌%◌, ◌^◌, ◌≤◌, ◌<◌}
use naza.Common.{◌≡◌, refl, sym, ap, ◌∙◌, arith}
use naza.Common.{Bool, true, false, ◌&&◌, ltb, ◌==◌}
use naza.Common.{none, some, List, [], ◌∷◌, ◌++◌}
use naza.Common.{length, replicate, set, All}
use naza.Common.{IsByte}
use mathlib.Core.Path.{ap₂}
use mathlib.Core.List.{reverse, reverse-append}
use native.Mathlib.Nat.{pow-le-pow_right}
use naza.Common.Bits.{holds_below_sound}
use naza.Common.Options.{>>=-eq-some}
use naza.Common.Powers.{pow-add}
use naza.Hex.{byte_at}
use naza.Base58.{alphabet, reverse_alphabet, encode_loop, add_digit, decode_loop}

abbrev pub letter : ℕ → ℕ
letter d = byte_at alphabet d

-- `n` letters for a number, the lowest digit first.
abbrev pub digits58 : ℕ → ℕ → List ℕ
digits58 zero v = []
digits58 (suc n) v = letter (v % 58) ∷ digits58 n (v / 58)

pub length-digits58 : (n v : ℕ) → length (digits58 n v) ≡ n
length-digits58 zero v = refl
length-digits58 (suc n) v = omega (arith, length-digits58 n (v / 58))

-- The letters stand in the text in the other order.
abbrev pub text58 : ℕ → ℕ → List ℕ
text58 n v = reverse (digits58 n v)

text58-suc : (n v : ℕ) → text58 (suc n) v ≡ text58 n (v / 58) ++ letter (v % 58) ∷ []
text58-suc n v = reverse-append (letter (v % 58) ∷ []) (digits58 n (v / 58))

replicate-last : (n x : ℕ) → replicate (suc n) x ≡ replicate n x ++ x ∷ []
replicate-last zero x = refl
replicate-last (suc n) x = ap (λ (t : List ℕ). x ∷ t) (replicate-last n x)

text58-zero : (n : ℕ) → text58 n 0 ≡ replicate n 49
text58-zero zero = refl
text58-zero (suc n) =
    text58-suc n 0 ∙ ap (λ (t : List ℕ). t ++ 49 ∷ []) (text58-zero n) ∙ sym (replicate-last n 49)

set-replicate :
    (i x c : ℕ) (tail : List ℕ)
    → set (replicate (suc i) x ++ tail) i c ≡ replicate i x ++ (c ∷ tail)
set-replicate zero x c tail = refl
set-replicate (suc i) x c tail = ap (λ (t : List ℕ). x ∷ t) (set-replicate i x c tail)

encode_loop_more :
    (n v : ℕ) (res : List ℕ)
    → 0 < v
    → encode_loop (suc n) v res ≡ encode_loop n (v / 58) (set res n (letter (v % 58)))
unfolding encode_loop
encode_loop_more n v res h = ground arith

-- The writing loop leaves the digits over the filled text.
pub encode_loop-text58 :
    (n v : ℕ) (tail : List ℕ)
    → v < 58 ^ n
    → encode_loop n v (replicate n 49 ++ tail) ≡ text58 n v ++ tail
encode_loop-text58 zero v tail h = unfold encode_loop in refl
encode_loop-text58 (suc n) zero tail h = rw (text58-zero (suc n)) (unfold encode_loop in refl)
encode_loop-text58 (suc n) (suc v) tail h =
    let c = letter (suc v % 58) in
    let rest = encode_loop-text58 n (suc v / 58) (c ∷ tail) (omega (arith, pow-suc 58 n)) in
    encode_loop_more n (suc v) (replicate (suc n) 49 ++ tail) (omega arith)
    ∙ ap (encode_loop n (suc v / 58)) (set-replicate n 49 c tail)
    ∙ rest
    ∙ sym (append_assoc (text58 n (suc v / 58)) (c ∷ []) tail)
    ∙ ap (λ (t : List ℕ). t ++ tail) (sym (text58-suc n (suc v)))

-- The two tables of letters are inverse to each other.
abbrev reads_back : ℕ → Bool
reads_back d = elim (reverse_alphabet (letter d)) [ none ↦ false | some e ↦ d == e ]

reads_back_table : (d : ℕ) → d < 58 → reads_back d ≡ true
unfolding reverse_alphabet
reads_back_table d h = holds_below_sound 58 reads_back d refl h

pub reverse_alphabet-letter : (d : ℕ) → d < 58 → reverse_alphabet (letter d) ≡ some d
reverse_alphabet-letter d h = ground (arith, reads_back_table d h)

abbrev writes_back : ℕ → Bool
writes_back c = elim (reverse_alphabet c) [ none ↦ true | some d ↦ ltb d 58 && letter d == c ]

writes_back_table : (c : ℕ) → c < 256 → writes_back c ≡ true
unfolding reverse_alphabet
writes_back_table c h = holds_below_sound 256 writes_back c refl h

pub letter-reverse_alphabet :
    (c d : ℕ) → IsByte c → reverse_alphabet c ≡ some d → (d < 58) × (letter d ≡ c)
letter-reverse_alphabet c d h e = ground (arith, writes_back_table c h)

-- Reading stops at a number that needs more than 64 bits; below that it adds the digits up.
order_fits : (k : ℕ) → k ≤ 10 → 58 ^ k ≤ 58 ^ 10
order_fits k h = pow-le-pow_right {n = 58} (omega arith) {i = k} {j = 10} h

split58 : (v k : ℕ) → v * 58 ^ k ≡ v % 58 * 58 ^ k + v / 58 * 58 ^ (k + 1)
split58 v k = omega (
  arith,
  ap (λ (t : ℕ). t * 58 ^ k) (div-add-mod v 58),
  ap (λ (t : ℕ). v / 58 * t) (pow-add 58 k 1),
)

-- The order of the next round, or of no round at all.
next_order : (k n : ℕ) → k + suc n ≤ 11 → 0 < n → 58 ^ k * 58 % 2 ^ 64 ≡ 58 ^ (k + 1)
next_order k n h pos =
    sym (ap (λ (t : ℕ). t % 2 ^ 64) (omega (arith, pow-add 58 k 1)))
    ∙ mod-eq_of_lt (omega (arith, order_fits (k + 1) (omega arith)))

pub add_digit_exact :
    (acc order d : ℕ) → acc + d * order < 2 ^ 64 → add_digit acc order d ≡ some (acc + d * order)
unfolding add_digit
add_digit_exact acc order d h = ground arith

pub add_digit_sound :
    (acc order d r : ℕ)
    → acc < 2 ^ 64
    → add_digit acc order d ≡ some r
    → (r ≡ acc + d * order) × (r < 2 ^ 64)
unfolding add_digit
add_digit_sound acc order d r h e = (ground arith, ground arith)

-- A round on the digit `d`.
decode_step :
    (c d acc k : ℕ) (cs : List ℕ)
    → reverse_alphabet c ≡ some d
    → acc + d * 58 ^ k < 2 ^ 64
    → decode_loop (c ∷ cs) acc (58 ^ k) ≡ decode_loop cs (acc + d * 58 ^ k) (58 ^ k * 58 % 2 ^ 64)
unfolding decode_loop
decode_step c d acc k cs e h =
    rw (e, decode_loop) (rw (add_digit_exact acc (58 ^ k) d h, decode_loop) refl)

pub decode_loop-digits58 :
    (n v acc k order : ℕ)
    → k + n ≤ 11
    → (0 < n → order ≡ 58 ^ k)
    → v < 58 ^ n
    → acc + v * 58 ^ k < 2 ^ 64
    → decode_loop (digits58 n v) acc order ≡ some (acc + v * 58 ^ k)
decode_loop-digits58 zero v acc k order hk ho hv fits = unfold decode_loop in ground arith
decode_loop-digits58 (suc n) v acc k order hk ho hv fits =
    let digit = reverse_alphabet-letter (v % 58) (omega arith) in
    let rest = digits58 n (v / 58) in
    ap (decode_loop (digits58 (suc n) v) acc) (ho (omega arith))
    ∙ decode_step (letter (v % 58)) (v % 58) acc k rest digit (omega (arith, split58 v k))
    ∙ decode_loop-digits58 n (v / 58) (acc + v % 58 * 58 ^ k) (k + 1) (58 ^ k * 58 % 2 ^ 64)
        (omega arith) (next_order k n hk) (omega (arith, pow-suc 58 n)) (omega (arith, split58 v k))
    ∙ ap some (omega (arith, split58 v k))

-- What the reading loop accepts are the digits of its result, which fits 64 bits.
pub decode_loop_sound :
    (cs : List ℕ) (acc k order r : ℕ)
    → All IsByte cs
    → k + length cs ≤ 11
    → (0 < length cs → order ≡ 58 ^ k)
    → acc < 2 ^ 64
    → decode_loop cs acc order ≡ some r
    → (w : ℕ) × (w < 58 ^ length cs)
      × (cs ≡ digits58 (length cs) w)
      × (r ≡ acc + w * 58 ^ k)
      × (r < 2 ^ 64)
unfolding decode_loop
decode_loop_sound [] acc k order r h hk ho ha e = (0, omega arith, refl, ground arith, ground arith)
decode_loop_sound (c ∷ cs) acc k order r h hk ho ha e =
    let (d, ed, e1) = >>=-eq-some (reverse_alphabet c) _ e in
    let (t, et, e2) = >>=-eq-some (add_digit acc order d) _ e1 in
    let (small, same) = letter-reverse_alphabet c d h.0 ed in
    let (sum, room) = add_digit_sound acc order d t ha et in
    let now : order ≡ 58 ^ k = ho (omega arith) in
    let next : 0 < length cs → order * 58 % 2 ^ 64 ≡ 58 ^ (k + 1) =
      λ p. ap (λ (o : ℕ). o * 58 % 2 ^ 64) now ∙ next_order k (length cs) hk p in
    let (w, below, digits, value, fits) =
      decode_loop_sound cs t (k + 1) (order * 58 % 2 ^ 64) r h.1 (omega arith) next room e2 in
    let low : (d + 58 * w) % 58 ≡ d = omega arith in
    let high : (d + 58 * w) / 58 ≡ w = omega arith in
    (
      d + 58 * w,
      omega (arith, pow-suc 58 (length cs)),
      ap₂ (λ (x : ℕ) (xs : List ℕ). x ∷ xs) (sym same ∙ ap letter (sym low))
          (digits ∙ ap (digits58 (length cs)) (sym high)),
      omega (arith, ap (λ (o : ℕ). d * o) now, ap (λ (o : ℕ). w * o) (pow-add 58 k 1)),
      fits,
    )
