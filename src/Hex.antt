-- ===== src/Hex.antt =====
-- common/StringTools.cpp: hexadecimal text. A text is the list of its character codes.
pub mod RoundTrip
mod Tests
use Prim.Native.Char.{code}
use Prim.Native.String
use Prim.Native.String.{String}
use naza.Common.{ℕ, zero, suc, ◌+◌, ◌*◌, ◌/◌, ◌%◌, ◌^◌, bit_and, bit_or}
use naza.Common.{List, [], ◌∷◌, ◌++◌, Option, none, some, replicate, length}
use naza.Common.{Bool, true, false, ltb, ◌==◌, not, if◌then◌else◌}

abbrev pub codes : String → List ℕ
codes String.[] = []
codes (String.◌∷◌ c s) = code c ∷ codes s

pub data Error : Type 0 where
  invalid_character invalid_string_size invalid_buffer_size : Error

pub data Result {ℓ} (A : Type ℓ) : Type ℓ where
  ok : A → Result A
  throw : Error → Result A

infixl 5 ◌>>=◌
abbrev pub ◌>>=◌ {ℓ κ} : {A : Type ℓ} {B : Type κ} → Result A → (A → Result B) → Result B
ok a >>= f = f a
throw e >>= f = throw e

pub count_up : ℕ → ℕ → List ℕ
count_up zero from = []
count_up (suc n) from = from ∷ count_up n (from + 1)

-- The table of 256 values, run by run: the digits, the capital and the small letters.
pub character_values : List ℕ
unfolding count_up
character_values =
    replicate 48 0xff
    ++ (count_up 10 0
        ++ (replicate 7 0xff
            ++ (count_up 6 10 ++ (replicate 26 0xff ++ (count_up 6 10 ++ replicate 153 0xff)))))

abbrev pub byte_at : List ℕ → ℕ → ℕ
byte_at [] i = 0
byte_at (b ∷ bs) zero = b
byte_at (b ∷ bs) (suc i) = byte_at bs i

unfoldable pub character_value : ℕ → ℕ
unfolding character_values
character_value character = byte_at character_values (character % 256)

-- `uint8_t from_hex(char)`.
unfoldable pub from_hex_char : ℕ → Result ℕ
from_hex_char character =
    let value = character_value character in
    if ltb 0x0f value then throw invalid_character else ok value

-- `bool from_hex(char, uint8_t &)`.
unfoldable pub from_hex_char? : ℕ → Option ℕ
from_hex_char? character =
    if ltb 0x0f (character_value character) then none else some (character_value character)

-- `value1 << 4 | value2`, stored in a byte.
abbrev pub join_digits : ℕ → ℕ → ℕ
join_digits value1 value2 = bit_or (value1 * 2 ^ 4) value2 % 256

-- The loop over `text[i << 1]` and `text[(i << 1) + 1]`.
unfoldable pub from_hex_pairs : List ℕ → Result (List ℕ)
from_hex_pairs (a ∷ b ∷ text) = do
  value1 ← from_hex_char a
  value2 ← from_hex_char b
  rest ← from_hex_pairs text
  ok (join_digits value1 value2 ∷ rest)
from_hex_pairs _ = ok []

abbrev pub is_odd : List ℕ → Bool
is_odd text = not (bit_and (length text) 1 == 0)

-- `BinaryArray from_hex(text)`.
unfoldable pub from_hex : List ℕ → Result (List ℕ)
unfolding from_hex_pairs from_hex_char
from_hex text = if is_odd text then throw invalid_string_size else from_hex_pairs text

-- `size_t from_hex(text, data, buffer_size)`: the bytes that it stores.
unfoldable pub from_hex_buffer : List ℕ → ℕ → Result (List ℕ)
unfolding from_hex_pairs
from_hex_buffer text buffer_size =
    if is_odd text
    then throw invalid_string_size
    else if ltb buffer_size (length text / 2)
    then throw invalid_buffer_size
    else from_hex_pairs text

-- The loop of the overloads that return `bool`: they stop at the first bad character, with the
-- bytes of the pairs before it stored.
unfoldable pub store_pairs : List ℕ → List ℕ → Bool × List ℕ
store_pairs stored (a ∷ b ∷ text) = elim (from_hex_char? a) [
  | none ↦ (false, stored)
  | some value1 ↦ elim (from_hex_char? b) [
    | none ↦ (false, stored)
    | some value2 ↦ store_pairs (stored ++ join_digits value1 value2 ∷ []) text
  ]
]
store_pairs stored _ = (true, stored)

-- `bool from_hex(text, BinaryArray &data)` appends to `data`.
unfoldable pub from_hex_append : List ℕ → List ℕ → Bool × List ℕ
unfolding store_pairs
from_hex_append text stored = if is_odd text then (false, stored) else store_pairs stored text

unfoldable pub from_hex_into : List ℕ → ℕ → Bool × List ℕ
unfolding store_pairs
from_hex_into text buffer_size =
    if is_odd text
    then (false, [])
    else if ltb buffer_size (length text / 2)
    then (false, [])
    else store_pairs [] text

abbrev pub hex_digits : List ℕ
hex_digits = codes "0123456789abcdef"

-- `to_hex` of the bytes, and `append_hex` to a text.
unfoldable pub append_hex : List ℕ → List ℕ → List ℕ
append_hex text [] = text
append_hex text (b ∷ bs) =
    append_hex (text ++ byte_at hex_digits (b / 2 ^ 4) ∷ byte_at hex_digits (bit_and b 15) ∷ []) bs

unfoldable pub to_hex : List ℕ → List ℕ
unfolding append_hex
to_hex bytes = append_hex [] bytes
