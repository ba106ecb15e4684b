-- ===== src/Base58.antt =====
-- common/Base58.cpp: text in blocks of eight bytes and eleven letters, and addresses with a tag and
-- a checksum. `bool` results with an output argument are options.
pub mod Digits
pub mod Block
pub mod RoundTrip
pub mod Address
mod Tests
use mathlib.Core.List.{reverse}
use naza.Common.{ℕ, zero, suc, ◌+◌, ◌-◌, ◌*◌, ◌/◌, ◌%◌, ◌^◌, bit_or}
use naza.Common.{List, [], ◌∷◌, ◌++◌, Option, none, some, length, take, drop, replicate, set}
use naza.Common.{Bool, true, false, not, ◌&&◌, ◌||◌, ltb, leb, ◌==◌, if◌then◌else◌, get_elem?}
use naza.Common.Options.{◌>>=◌, ◌>>◌, guard}
use naza.Hex.{codes, byte_at}
use naza.Sqlite4.{uint_be_to_bytes}
use naza.Varint.{ReadCode, ReadResult, write_varint, read_varint}
use naza.Words.{Wide, mul128}

abbrev pub alphabet : List ℕ
alphabet = codes "123456789ABCDEFGHJKLMNPQRSTUVWXYZabcdefghijkmnopqrstuvwxyz"

abbrev pub encoded_block_sizes : List ℕ
encoded_block_sizes = 0 ∷ 2 ∷ 3 ∷ 5 ∷ 6 ∷ 7 ∷ 9 ∷ 10 ∷ 11 ∷ []

abbrev pub addr_checksum_size : ℕ
addr_checksum_size = 4

-- The constructor of `reverse_alphabet`; -1 is `none`.
fill_letters : ℕ → List ℕ → List (Option ℕ) → List (Option ℕ)
fill_letters i [] m_data = m_data
fill_letters i (letter ∷ letters) m_data =
    fill_letters (i + 1) letters (set m_data (letter - 49) (some i))

abbrev option_at : List (Option ℕ) → ℕ → Option ℕ
option_at [] i = none
option_at (x ∷ xs) zero = x
option_at (x ∷ xs) (suc i) = option_at xs i

-- `letter - alphabet[0]` is a `size_t`, and below `alphabet[0]` it is far beyond the table.
unfoldable pub reverse_alphabet : ℕ → Option ℕ
unfolding fill_letters
reverse_alphabet letter =
    let m_data = fill_letters 0 alphabet (replicate 74 none) in
    if ltb letter 49 then none else option_at m_data (letter - 49)

fill_sizes : ℕ → List ℕ → List (Option ℕ) → List (Option ℕ)
fill_sizes i [] m_data = m_data
fill_sizes i (size ∷ sizes) m_data = fill_sizes (i + 1) sizes (set m_data size (some i))

unfoldable pub decoded_block_sizes : ℕ → Option ℕ
unfolding fill_sizes
decoded_block_sizes size = option_at (fill_sizes 0 encoded_block_sizes (replicate 12 none)) size

-- `res <<= 8; res |= *data++;` for every byte but the first.
unfoldable pub shift_in : ℕ → List ℕ → ℕ
shift_in res [] = res
shift_in res (b ∷ bs) = shift_in (bit_or (res * 2 ^ 8 % 2 ^ 64) b) bs

unfoldable pub uint_8be_to_64 : List ℕ → ℕ
unfolding shift_in
uint_8be_to_64 [] = 0
uint_8be_to_64 (b ∷ bs) = shift_in (bit_or 0 b) bs

-- The last `size` of the eight bytes, highest byte first.
unfoldable pub uint_64_to_8be : ℕ → ℕ → List ℕ
unfolding uint_be_to_bytes
uint_64_to_8be num size = drop (8 - size) (uint_be_to_bytes 8 num)

-- `while (0 < num)`: letters from position `i` downwards. The first argument is `i + 1`.
unfoldable pub encode_loop : ℕ → ℕ → List ℕ → List ℕ
encode_loop zero num res = res
encode_loop (suc i) num res =
    let more = encode_loop i (num / 58) (set res i (byte_at alphabet (num % 58))) in
    if ltb 0 num then more else res

-- The text is filled with `alphabet[0]` before.
unfoldable pub encode_block : List ℕ → List ℕ
unfolding encode_loop uint_8be_to_64
encode_block block =
    let size = byte_at encoded_block_sizes (length block) in
    encode_loop size (uint_8be_to_64 block) (replicate size 49)

-- `tmp = res_num + mul128(order, digit, &product_hi)`, refused where it overflows.
unfoldable pub add_digit : ℕ → ℕ → ℕ → Option ℕ
unfolding mul128
add_digit res_num order digit =
    let product = mul128 order digit in
    let tmp = (res_num + product.lo) % 2 ^ 64 in
    if ltb tmp res_num || not (product.hi == 0) then none else some tmp

-- The letters from the last one to the first, with the sum and the order so far.
unfoldable pub decode_loop : List ℕ → ℕ → ℕ → Option ℕ
unfolding add_digit
decode_loop [] res_num order = some res_num
decode_loop (letter ∷ letters) res_num order = do
  digit ← reverse_alphabet letter
  tmp ← add_digit res_num order digit
  decode_loop letters tmp (order * 58 % 2 ^ 64)

-- What follows the loop.
unfoldable pub finish_block : ℕ → ℕ → Option (List ℕ)
unfolding uint_64_to_8be
finish_block res_size res_num =
    if ltb res_size 8 && leb (2 ^ (8 * res_size)) res_num
    then none
    else some (uint_64_to_8be res_num res_size)

unfoldable pub decode_block : List ℕ → Option (List ℕ)
unfolding decode_loop finish_block decoded_block_sizes
decode_block block = do
  res_size ← decoded_block_sizes (length block)
  guard (not (res_size == 0))
  res_num ← decode_loop (reverse block) 0 1
  finish_block res_size res_num

abbrev pub same_bytes : List ℕ → List ℕ → Bool
same_bytes [] [] = true
same_bytes (x ∷ xs) (y ∷ ys) = x == y && same_bytes xs ys
same_bytes _ _ = false

unfoldable pub encode_blocks : ℕ → List ℕ → List ℕ
encode_blocks zero data' = if ltb 0 (length data') then encode_block data' else []
encode_blocks (suc n) data' = encode_block (take 8 data') ++ encode_blocks n (drop 8 data')

unfoldable pub encode : List ℕ → List ℕ
encode bytes = encode_blocks (length bytes / 8) bytes

unfoldable pub decode_blocks : ℕ → List ℕ → Option (List ℕ)
decode_blocks zero enc = if ltb 0 (length enc) then decode_block enc else some []
decode_blocks (suc n) enc = do
  block ← decode_block (take 11 enc)
  rest ← decode_blocks n (drop 11 enc)
  some (block ++ rest)

unfoldable pub decode : List ℕ → Option (List ℕ)
decode enc = do
  last_block_decoded_size ← decoded_block_sizes (length enc % 11)
  decode_blocks (length enc / 11) enc

-- `cn_fast_hash` is not under src/common: it takes bytes to 32 bytes.
unfoldable pub encode_addr : (List ℕ → List ℕ) → ℕ → List ℕ → List ℕ
encode_addr cn_fast_hash tag bytes =
    let buf = write_varint tag ++ bytes in
    encode (buf ++ take addr_checksum_size (cn_fast_hash buf))

-- `read <= 0` refuses an empty input and both error codes.
abbrev pub accept_tag : ReadResult → Option (ℕ × List ℕ)
accept_tag r = elim (r.code) [
  | ReadCode.count zero ↦ none
  | ReadCode.count (suc n) ↦ some (r.value, r.rest)
  | _ ↦ none
]

unfoldable pub decode_addr : (List ℕ → List ℕ) → List ℕ → Option (ℕ × List ℕ)
decode_addr cn_fast_hash addr = do
  addr_data ← decode addr
  guard (not (leb (length addr_data) addr_checksum_size))
  let body = take (length addr_data - addr_checksum_size) addr_data
  let checksum = drop (length addr_data - addr_checksum_size) addr_data
  guard (same_bytes (take addr_checksum_size (cn_fast_hash body)) checksum)
  accept_tag (read_varint 64 body)
