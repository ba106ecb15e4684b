-- ===== src/Base58/RoundTrip.antt =====
-- Whole texts: decoding and encoding are inverse to each other.
use native.Mathlib.Decide.{dec_lt}
use naza.Common.{ℕ, zero, suc, ◌+◌, ◌-◌, ◌*◌, ◌/◌, ◌%◌, ◌≤◌, ◌<◌}
use naza.Common.{◌≡◌, refl, sym, ap, ◌∙◌, arith}
use naza.Common.{◌||◌, ltb, leb}
use naza.Common.{some, List, [], ◌∷◌, ◌++◌}
use naza.Common.{length, length-append, take, drop, All}
use naza.Common.{take-append, drop-append, take-append-drop, length-take, length-drop}
use naza.Common.{All-append, All-take, All-drop, IsByte}
use mathlib.Core.Path.{ap₂}
use naza.Common.{length-reverse}
use naza.Common.Options.{◌>>=◌, >>=-eq-some}
use naza.Common.Bits.{holds_below_sound}
use naza.Sqlite4.{uint_be_loop}
use naza.Base58.{decoded_block_sizes, encode_block, decode_block}
use naza.Base58.{encode_blocks, encode, decode_blocks, decode}
use naza.Base58.Digits.{digits58, length-digits58}
use naza.Base58.Block.{letters, sizes, encode_block-text58}
use naza.Base58.Block.{decode_block-encode_block, encode_block-decode_block}

length-encode_block :
    (block : List ℕ)
    → All IsByte block
    → length block ≤ 8
    → length (encode_block block) ≡ letters (length block)
length-encode_block block h hl =
    let s = letters (length block) in
    let v = uint_be_loop 0 block in
    ap length (encode_block-text58 block h hl) ∙ length-reverse (digits58 s v) ∙ length-digits58 s v

-- The text of the first block stands in front.
encode_blocks-suc :
    (n : ℕ) (bytes : List ℕ)
    → encode_blocks (suc n) bytes ≡ encode_block (take 8 bytes) ++ encode_blocks n (drop 8 bytes)
unfolding encode_blocks
encode_blocks-suc n bytes = refl

encode_blocks-zero :
    (bytes : List ℕ) → 0 < length bytes → encode_blocks 0 bytes ≡ encode_block bytes
unfolding encode_blocks
encode_blocks-zero bytes h = ground arith

length-encode_blocks :
    (n : ℕ) (bytes : List ℕ)
    → All IsByte bytes
    → length bytes / 8 ≡ n
    → length (encode_blocks n bytes) ≡ 11 * n + letters (length bytes - 8 * n)
length-encode_blocks zero [] h hn = unfold encode_blocks in refl
length-encode_blocks zero (b ∷ bytes) h hn =
    ap length (encode_blocks-zero (b ∷ bytes) (omega arith))
    ∙ length-encode_block (b ∷ bytes) h (omega arith)
    ∙ ap letters (whole (length (b ∷ bytes)))
    ∙ omega arith
  where
    whole : (n : ℕ) → n ≡ n - 8 * 0
    whole n = omega arith
length-encode_blocks (suc n) bytes h hn =
    let front = take 8 bytes in
    let back = drop 8 bytes in
    let eight = length-take 8 bytes (omega arith) in
    let left = length-drop 8 bytes in
    let one = length-encode_block front (All-take IsByte 8 bytes h) (omega arith) in
    let rest = length-encode_blocks n back (All-drop IsByte 8 bytes h) (omega arith) in
    ap length (encode_blocks-suc n bytes)
    ∙ length-append (encode_block front) (encode_blocks n back)
    ∙ omega (
      arith,
      one,
      rest,
      ap letters (shorter n (length bytes)),
      ap letters eight,
      ap letters (ap (λ (t : ℕ). t - 8 * n) left),
    )
  where
    shorter : (n m : ℕ) → m - 8 - 8 * n ≡ m - 8 * suc n
    shorter n m = omega arith

letters_pos : (n : ℕ) → 0 < n → n ≤ 8 → 0 < letters n
letters_pos n pos h = grind (arith, holds_below_sound 9 (λ m. leb m 0 || ltb 0 (letters m)) n refl)

decode_blocks-zero : (enc : List ℕ) → 0 < length enc → decode_blocks 0 enc ≡ decode_block enc
unfolding decode_blocks
decode_blocks-zero enc h = ground arith

decode_blocks-suc :
    (n : ℕ) (enc : List ℕ)
    → decode_blocks (suc n) enc ≡ (
        decode_block (take 11 enc) >>= λ block.
        decode_blocks n (drop 11 enc) >>= λ rest. some (block ++ rest))
unfolding decode_blocks
decode_blocks-suc n enc = refl

decode_blocks-encode_blocks :
    (n : ℕ) (bytes : List ℕ)
    → All IsByte bytes
    → length bytes / 8 ≡ n
    → decode_blocks n (encode_blocks n bytes) ≡ some bytes
decode_blocks-encode_blocks zero [] h hn = unfold encode_blocks decode_blocks in refl
decode_blocks-encode_blocks zero (b ∷ bytes) h hn =
    ap (decode_blocks 0) (encode_blocks-zero (b ∷ bytes) (omega arith))
    ∙ decode_blocks-zero (encode_block (b ∷ bytes)) (
        omega (
          arith,
          length-encode_block (b ∷ bytes) h (omega arith),
          letters_pos (length (b ∷ bytes)) (omega arith) (omega arith),
        ))
    ∙ decode_block-encode_block (b ∷ bytes) h (omega arith) (omega arith)
decode_blocks-encode_blocks (suc n) bytes h hn =
    let front = take 8 bytes in
    let back = drop 8 bytes in
    let eight = length-take 8 bytes (omega arith) in
    let left = length-drop 8 bytes in
    let all = All-take IsByte 8 bytes h in
    let one = length-encode_block front all (omega arith) ∙ ap letters eight in
    let first = decode_block-encode_block front all (omega arith) (omega arith) in
    let rest = decode_blocks-encode_blocks n back (All-drop IsByte 8 bytes h) (omega arith) in
    rw
      (
        encode_blocks-suc n bytes,
        decode_blocks-suc n (encode_block front ++ encode_blocks n back),
        take-append (encode_block front) (encode_blocks n back) 11 one,
        drop-append (encode_block front) (encode_blocks n back) 11 one,
        first,
        rest,
        take-append-drop 8 bytes,
      )
      refl

-- A block that is not full takes at most ten letters.
letters_last : (k : ℕ) → k < 8 → letters k ≤ 10
letters_last k h = grind (arith, holds_below_sound 8 (λ m. leb (letters m) 10) k refl h)

-- Decoding the text of any bytes gives back the bytes.
pub decode-encode : (bytes : List ℕ) → All IsByte bytes → decode (encode bytes) ≡ some bytes
unfolding decode encode
decode-encode bytes h =
    let n = length bytes / 8 in
    let k = length bytes % 8 in
    let size = sizes k (omega arith) in
    let short = letters_last k (omega arith) in
    let many : length (encode_blocks n bytes) ≡ 11 * n + letters k =
      length-encode_blocks n bytes h refl ∙ ap (λ (t : ℕ). 11 * n + letters t) (omega arith) in
    let tail : length (encode_blocks n bytes) % 11 ≡ letters k = omega arith in
    let count : length (encode_blocks n bytes) / 11 ≡ n = omega arith in
    rw (tail, size.back, count) (decode_blocks-encode_blocks n bytes h refl)

not_full : (m : ℕ) → m ≤ 8 → letters m ≤ 10 → m < 8
not_full m h few = elim (dec_lt m 8) [
  | yes p ↦ p
  | no p ↦ absurd (omega (arith, ap letters (eight m h p)))
]
  where
    eight : (m : ℕ) → m ≤ 8 → ¬ (m < 8) → m ≡ 8
    eight m h p = omega arith

full : (m : ℕ) → m ≤ 8 → letters m ≡ 11 → m ≡ 8
full m h all = elim (dec_lt m 8) [
  | yes p ↦ absurd (omega (arith, letters_last m p))
  | no p ↦ omega arith
]

decode_blocks_sound :
    (n : ℕ) (enc bytes : List ℕ)
    → All IsByte enc
    → length enc / 11 ≡ n
    → decode_blocks n enc ≡ some bytes
    → (encode_blocks n bytes ≡ enc) × (length bytes / 8 ≡ n) × All IsByte bytes
decode_blocks_sound zero [] bytes h hn e =
    let nothing : [] ≡ bytes = unfold decode_blocks in cc e in
    rw (← nothing) (unfold encode_blocks in refl, refl, tt)
decode_blocks_sound zero (c ∷ enc) bytes h hn e =
    let block = sym (decode_blocks-zero (c ∷ enc) (omega arith)) ∙ e in
    let (same, all, pos, most, size) =
      encode_block-decode_block (c ∷ enc) bytes h (omega arith) block in
    let short = not_full (length bytes) most (omega arith) in
    (encode_blocks-zero bytes pos ∙ same, omega arith, all)
decode_blocks_sound (suc n) enc bytes h hn e =
    let front = take 11 enc in
    let back = drop 11 enc in
    let eleven = length-take 11 enc (omega arith) in
    let left = length-drop 11 enc in
    let (block, e1, e2) = >>=-eq-some (decode_block front) _ (sym (decode_blocks-suc n enc) ∙ e) in
    let (rest, e3, e4) = >>=-eq-some (decode_blocks n back) _ e2 in
    let (same, all, pos, most, size) =
      encode_block-decode_block front block (All-take IsByte 11 enc h) (omega arith) e1 in
    let eight = full (length block) most (size ∙ eleven) in
    let (same', many, all') =
      decode_blocks_sound n back rest (All-drop IsByte 11 enc h) (omega arith) e3 in
    let joined : block ++ rest ≡ bytes = cc e4 in
    rw (← joined) (
      encode_blocks-suc n (block ++ rest)
          ∙ ap₂ (λ (s t : List ℕ). encode_block s ++ encode_blocks n t)
              (take-append block rest 8 eight) (drop-append block rest 8 eight)
          ∙ ap₂ (λ (s t : List ℕ). s ++ t) same same'
          ∙ take-append-drop 11 enc,
      omega (arith, length-append block rest),
      All-append IsByte block rest all all',
    )

-- A text of bytes that decodes is the encoding of what it decodes to, which are bytes.
pub encode-decode :
    (enc bytes : List ℕ)
    → All IsByte enc
    → decode enc ≡ some bytes
    → (encode bytes ≡ enc) × All IsByte bytes
unfolding decode encode
encode-decode enc bytes h e =
    let (k, size, e1) = >>=-eq-some (decoded_block_sizes (length enc % 11)) _ e in
    let (same, many, all) = decode_blocks_sound (length enc / 11) enc bytes h refl e1 in
    (ap (λ (t : ℕ). encode_blocks t bytes) many ∙ same, all)
