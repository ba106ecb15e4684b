-- ===== src/Base58/Block.antt =====
-- One block: the decoder is the exact inverse of the encoder.
use mathlib.Core.List.{append-nil}
use native.Mathlib.Decide.{dec_lt}
use naza.Common.{ℕ, ◌+◌, ◌-◌, ◌*◌, ◌%◌, ◌^◌, ◌≤◌, ◌<◌, bit_or}
use naza.Common.{◌≡◌, refl, sym, ap, ◌∙◌, arith}
use naza.Common.{Bool, true, false, not, ◌&&◌, leb, ◌==◌}
use naza.Common.{none, some, List, [], ◌∷◌}
use naza.Common.{length, drop, replicate, All}
use naza.Common.{IsByte}
use mathlib.Core.Path.{ap₂, subst}
use mathlib.Core.List.{reverse, reverse-reverse}
use naza.Common.Options.{>>=-eq-some, guard, guard-eq-some}
use naza.Common.Bits.{holds_below_sound}
use native.Mathlib.Nat.{pow-le-pow_right}
use naza.Common.{length-reverse, All-reverse}
use naza.Common.Powers.{pow_bytes}
use naza.Hex.{byte_at}
use naza.Sqlite4.{uint_be_loop, uint_be_to_bytes}
use naza.Sqlite4.BigEndian.{uint_be_loop_value, uint_be_to_bytes-loop, uint_be_loop-to_bytes}
use naza.Sqlite4.BigEndian.{drop-uint_be_to_bytes, length-uint_be_to_bytes, uint_be_to_bytes-IsByte}
use naza.Base58.{encoded_block_sizes, decoded_block_sizes, shift_in, uint_8be_to_64, uint_64_to_8be}
use naza.Base58.{encode_loop, encode_block, decode_loop, finish_block, decode_block}
use naza.Base58.Digits.{text58, digits58, length-digits58, encode_loop-text58}
use naza.Base58.Digits.{decode_loop-digits58, decode_loop_sound}

shift_in-uint_be : (bs : List ℕ) (acc : ℕ) → shift_in acc bs ≡ uint_be_loop acc bs
unfolding shift_in uint_be_loop
shift_in-uint_be [] acc = refl
shift_in-uint_be (b ∷ bs) acc = shift_in-uint_be bs (bit_or (acc * 256 % 2 ^ 64) b)

-- The integer of a block is its big-endian value.
block_number : (bs : List ℕ) → uint_8be_to_64 bs ≡ uint_be_loop 0 bs
unfolding uint_8be_to_64 uint_be_loop
block_number [] = refl
block_number (b ∷ bs) = shift_in-uint_be bs (bit_or 0 b)

written_bytes : (v n : ℕ) → n ≤ 8 → uint_64_to_8be v n ≡ uint_be_to_bytes n v
unfolding uint_64_to_8be
written_bytes v n h =
    ap (λ (t : ℕ). drop (8 - n) (uint_be_to_bytes t v)) (sum n h)
    ∙ drop-uint_be_to_bytes (8 - n) n v
  where
    sum : (n : ℕ) → n ≤ 8 → 8 ≡ 8 - n + n
    sum n h = omega arith

-- How many letters a block of `n` bytes takes.
abbrev pub letters : ℕ → ℕ
letters n = byte_at encoded_block_sizes n

-- The table of sizes: enough letters, at most eleven, and back again.
pub record IsSize (n : ℕ) : Type 0 where
  pub most : letters n ≤ 11
  pub enough : 256 ^ n ≤ 58 ^ letters n
  pub back : decoded_block_sizes (letters n) ≡ some n

abbrev size_holds : ℕ → Bool
size_holds n =
    (leb (letters n) 11 && leb (256 ^ n) (58 ^ letters n))
    && (elim (decoded_block_sizes (letters n)) [ none ↦ false | some m ↦ m == n ])

size_table : (n : ℕ) → n < 9 → size_holds n ≡ true
unfolding decoded_block_sizes
size_table n h = holds_below_sound 9 size_holds n refl h

pub sizes : (n : ℕ) → n ≤ 8 → IsSize n
sizes n h =
    let table = size_table n (omega arith) in
    record { most = ground arith; enough = ground arith; back = ground arith }

-- The other way: a length that is the length of some block.
abbrev letters_hold : ℕ → Bool
letters_hold s = elim (decoded_block_sizes s) [ none ↦ true | some n ↦ leb n 8 && letters n == s ]

letters_table : (s : ℕ) → s < 12 → letters_hold s ≡ true
unfolding decoded_block_sizes
letters_table s h = holds_below_sound 12 letters_hold s refl h

pub size_of_letters :
    (s n : ℕ) → s ≤ 11 → decoded_block_sizes s ≡ some n → (n ≤ 8) × (letters n ≡ s)
size_of_letters s n h e = let table = letters_table s (omega arith) in (ground arith, ground arith)

byte_word : (n : ℕ) → n ≤ 8 → 256 ^ n ≤ 2 ^ 64
byte_word n h = pow-le-pow_right {n = 256} (omega arith) {i = n} {j = 8} h

number_fits :
    (block : List ℕ)
    → All IsByte block
    → length block ≤ 8
    → uint_be_loop 0 block < 256 ^ length block
number_fits block h hl =
    let value = uint_be_loop_value block 0 0 h (omega arith) (omega arith) in
    omega (arith, value.1, ap (λ (t : ℕ). 256 ^ t) (zero_left (length block)))
  where
    zero_left : (n : ℕ) → 0 + n ≡ n
    zero_left n = omega arith

-- The text of a block of `n` bytes.
pub encode_block-text58 :
    (block : List ℕ)
    → All IsByte block
    → length block ≤ 8
    → encode_block block ≡ text58 (letters (length block)) (uint_be_loop 0 block)
unfolding encode_block
encode_block-text58 block h hl =
    let n = letters (length block) in
    let v = uint_be_loop 0 block in
    let size = sizes (length block) hl in
    ap (λ (t : ℕ). encode_loop n t (replicate n 49)) (block_number block)
    ∙ ap (encode_loop n v) (sym (append-nil (replicate n 49)))
    ∙ encode_loop-text58 n v [] (omega (arith, number_fits block h hl, size.enough))
    ∙ append-nil (text58 n v)

finish_fits : (n v : ℕ) → v < 256 ^ n → finish_block n v ≡ some (uint_64_to_8be v n)
unfolding finish_block
finish_fits n v fits = ground (arith, pow_bytes n)

finish_sound :
    (n v : ℕ) (block : List ℕ)
    → n ≤ 8
    → v < 2 ^ 64
    → finish_block n v ≡ some block
    → (v < 256 ^ n) × (uint_64_to_8be v n ≡ block)
unfolding finish_block
finish_sound n v block h word e = (
  elim (dec_lt n 8) [
    | yes p ↦ ground (arith, pow_bytes n)
    | no p ↦ omega (arith, ap (λ (t : ℕ). 256 ^ t) (eight n h p))
  ],
  ground arith,
)
  where
    eight : (n : ℕ) → n ≤ 8 → ¬ (n < 8) → n ≡ 8
    eight n h p = omega arith

-- Reading the letters of a number that fits the block.
read_text58 :
    (n v : ℕ)
    → 0 < n
    → n ≤ 8
    → v < 256 ^ n
    → decode_block (text58 (letters n) v) ≡ some (uint_64_to_8be v n)
unfolding decode_block
read_text58 n v pos h fits =
    let s = letters n in
    let size = sizes n h in
    let many : length (text58 s v) ≡ s = length-reverse (digits58 s v) ∙ length-digits58 s v in
    let room : v < 58 ^ s = omega (arith, size.enough) in
    let word : v < 2 ^ 64 = omega (arith, byte_word n h) in
    let digits : decode_loop (digits58 s v) 0 1 ≡ some (0 + v * 58 ^ 0) =
      decode_loop-digits58 s v 0 0 1 (omega (arith, size.most)) (λ p. refl) room (omega arith) in
    let value : 0 + v * 58 ^ 0 ≡ v = omega arith in
    rw (many, size.back, positive n pos, reverse-reverse (digits58 s v), digits, value)
      (finish_fits n v fits)
  where
    positive : (n : ℕ) → 0 < n → (n == 0) ≡ false
    positive n h = ground arith

-- The decoder gives back every block of one to eight bytes.
pub decode_block-encode_block :
    (block : List ℕ)
    → All IsByte block
    → 0 < length block
    → length block ≤ 8
    → decode_block (encode_block block) ≡ some block
decode_block-encode_block block h pos hl =
    let n = length block in
    let v = uint_be_loop 0 block in
    ap decode_block (encode_block-text58 block h hl)
    ∙ read_text58 n v pos hl (number_fits block h hl)
    ∙ ap some (written_bytes v n hl ∙ uint_be_to_bytes-loop block 0 0 h (omega arith) (omega arith))

accepted_block :
    (enc block : List ℕ)
    → decode_block enc ≡ some block
    → (n : ℕ) × (r : ℕ) × (decoded_block_sizes (length enc) ≡ some n)
      × (0 < n)
      × (decode_loop (reverse enc) 0 1 ≡ some r)
      × (finish_block n r ≡ some block)
unfolding decode_block
accepted_block enc block e =
    let (n, size, e1) = >>=-eq-some (decoded_block_sizes (length enc)) _ e in
    let (u, nonzero, e2) = >>=-eq-some (guard (not (n == 0))) _ e1 in
    let (r, digits, e3) = >>=-eq-some (decode_loop (reverse enc) 0 1) _ e2 in
    let test = guard-eq-some (not (n == 0)) nonzero in (n, r, size, ground arith, digits, e3)

-- The decoder accepts only what the encoder writes.
pub encode_block-decode_block :
    (enc block : List ℕ)
    → All IsByte enc
    → length enc ≤ 11
    → decode_block enc ≡ some block
    → (encode_block block ≡ enc)
      × All IsByte block
      × (0 < length block)
      × (length block ≤ 8)
      × (letters (length block) ≡ length enc)
encode_block-decode_block enc block h hl e =
    let (n, r, size, some_bytes, digits, finished) = accepted_block enc block e in
    let len = length enc in
    let rev = length-reverse enc in
    let (w, below, same, value, word) =
      decode_loop_sound (reverse enc) 0 0 1 r (All-reverse IsByte enc h) (omega arith) (λ p. refl)
        (omega arith) digits in
    let (small, back) = size_of_letters len n hl size in
    let (fits, stored) = finish_sound n r block small word finished in
    let bytes : uint_be_to_bytes n r ≡ block = sym (written_bytes r n small) ∙ stored in
    let many : length block ≡ n = ap length (sym bytes) ∙ length-uint_be_to_bytes n r in
    let all = subst (All IsByte) bytes (uint_be_to_bytes-IsByte n r) in
    let number : uint_be_loop 0 block ≡ r =
      ap (uint_be_loop 0) (sym bytes) ∙ uint_be_loop-to_bytes n r small fits in
    let w_eq : r ≡ w = omega arith in
    let text : text58 len w ≡ enc =
      ap reverse (ap (λ (t : ℕ). digits58 t w) (sym rev) ∙ sym same) ∙ reverse-reverse enc in
    (
      encode_block-text58 block all (omega arith)
          ∙ ap₂ text58 (ap letters many ∙ back) (number ∙ w_eq)
          ∙ text,
      all,
      omega arith,
      omega arith,
      ap letters many ∙ back,
    )
