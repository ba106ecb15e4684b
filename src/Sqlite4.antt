-- ===== src/Sqlite4.antt =====
-- common/Varint.cpp: integers of up to nine bytes whose encodings sort like the integers. The keys
-- of the block index are built from them. A text or a buffer is the list of its bytes.
pub mod BigEndian
pub mod RoundTrip
pub mod Order
mod Tests
use naza.Common.{ℕ, zero, suc, ◌+◌, ◌-◌, ◌*◌, ◌/◌, ◌%◌, ◌^◌, bit_or}
use naza.Common.{List, [], ◌∷◌, ◌++◌, ltb, leb, ◌==◌, if◌then◌else◌, length, take, drop}

pub data Error : Type 0 where
  end_of_read excess_symbols : Error

pub data Result {ℓ} (A : Type ℓ) : Type ℓ where
  ok : A → Result A
  throw : Error → Result A

infixl 5 ◌>>=◌
abbrev pub ◌>>=◌ {ℓ κ} : {A : Type ℓ} {B : Type κ} → Result A → (A → Result B) → Result B
ok a >>= f = f a
throw e >>= f = throw e

-- `result <<= 8; result |= buf[i];` in 64 bits.
unfoldable pub uint_be_loop : ℕ → List ℕ → ℕ
uint_be_loop result [] = result
uint_be_loop result (b ∷ buf) = uint_be_loop (bit_or (result * 2 ^ 8 % 2 ^ 64) b) buf

unfoldable pub uint_be_from_bytes : List ℕ → ℕ
unfolding uint_be_loop
uint_be_from_bytes buf = uint_be_loop 0 buf

-- The last byte is stored first: `buf[i] = static_cast<unsigned char>(val); val >>= 8;`.
unfoldable pub uint_be_to_bytes : ℕ → ℕ → List ℕ
uint_be_to_bytes zero val = []
uint_be_to_bytes (suc si) val = uint_be_to_bytes si (val / 2 ^ 8) ++ (val % 256) ∷ []

unfoldable pub get_varint_sqlite4_size : ℕ → ℕ
get_varint_sqlite4_size val =
    if leb val 240
    then 1
    else if leb val 2287
    then 2
    else if leb val 67823
    then 3
    else if leb val 16777215
    then 4
    else if leb val 4294967295
    then 5
    else if leb val 1099511627775
    then 6
    else if leb val 281474976710655
    then 7
    else if leb val 72057594037927935
    then 8
    else 9

-- `read`: the next `len` bytes and what follows them.
unfoldable pub read : ℕ → List ℕ → Result (List ℕ × List ℕ)
read len begin =
    if ltb (length begin) len then throw end_of_read else ok (take len begin, drop len begin)

abbrev byte_at : List ℕ → ℕ → ℕ
byte_at [] i = 0
byte_at (b ∷ bs) zero = b
byte_at (b ∷ bs) (suc i) = byte_at bs i

-- After the first byte, in the order of the tests.
unfoldable pub read_after : ℕ → List ℕ → Result (ℕ × List ℕ)
unfolding read uint_be_from_bytes
read_after a0 begin =
    if leb a0 240
    then ok (a0, begin)
    else if leb a0 248
    then (do (buf, rest) ← read 1 begin; ok (240 + 256 * (a0 - 241) + byte_at buf 0, rest))
    else if a0 == 249
    then (do (buf, rest) ← read 2 begin; ok (2288 + 256 * byte_at buf 0 + byte_at buf 1, rest))
    else do (buf, rest) ← read (3 + a0 - 250) begin; ok (uint_be_from_bytes buf, rest)

unfoldable pub read_varint_sqlite4 : List ℕ → Result (ℕ × List ℕ)
unfolding read read_after
read_varint_sqlite4 begin = do (a0, rest) ← read 1 begin; read_after (byte_at a0 0) rest

-- The overload that takes a whole text.
unfoldable pub read_whole : List ℕ → Result ℕ
unfolding read_varint_sqlite4
read_whole str = do
  (val, rest) ← read_varint_sqlite4 str
  if length rest == 0 then ok val else throw excess_symbols

unfoldable pub write_varint_sqlite4 : ℕ → List ℕ
unfolding uint_be_to_bytes
write_varint_sqlite4 val =
    if leb val 240
    then (val % 256) ∷ []
    else if leb val 2287
    then (((val - 240) / 256 + 241) % 256) ∷ ((val - 240) % 256) ∷ []
    else if leb val 67823
    then 249 ∷ ((val - 2288) / 256 % 256) ∷ ((val - 2288) % 256) ∷ []
    else if leb val 16777215
    then 250 ∷ uint_be_to_bytes 3 val
    else if leb val 4294967295
    then 251 ∷ uint_be_to_bytes 4 val
    else if leb val 1099511627775
    then 252 ∷ uint_be_to_bytes 5 val
    else if leb val 281474976710655
    then 253 ∷ uint_be_to_bytes 6 val
    else if leb val 72057594037927935
    then 254 ∷ uint_be_to_bytes 7 val
    else 255 ∷ uint_be_to_bytes 8 val
