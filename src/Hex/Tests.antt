-- ===== src/Hex/Tests.antt =====
-- Runs of the hexadecimal code, and its theorems at concrete texts.
use naza.Common.{◌≡◌, refl, arith, [], ◌∷◌, map, true, false}
use naza.Hex.{ok, throw, invalid_character, invalid_string_size, invalid_buffer_size, codes}
use naza.Hex.{to_hex, from_hex, from_hex_buffer, from_hex_append, from_hex_char?}
use naza.Hex.{from_hex_into, character_value}
use naza.Hex.RoundTrip.{lower, from_hex-to_hex, to_hex-from_hex}

written : to_hex (0xca ∷ 0x0f ∷ []) ≡ codes "ca0f"
unfolding to_hex
written = refl

read_capital : from_hex (codes "CA0f") ≡ ok (0xca ∷ 0x0f ∷ [])
unfolding from_hex character_value
read_capital = refl

read_odd : from_hex (codes "CA0") ≡ throw invalid_string_size
unfolding from_hex
read_odd = refl

read_bad : from_hex (codes "0g") ≡ throw invalid_character
unfolding from_hex character_value
read_bad = refl

read_long : from_hex_buffer (codes "0a0b") 1 ≡ throw invalid_buffer_size
unfolding from_hex_buffer
read_long = refl

-- The `bool` overload keeps the bytes in front of a bad character.
read_half : from_hex_append (codes "0a0g") [] ≡ (false, 10 ∷ [])
unfolding from_hex_append from_hex_char? character_value
read_half = refl

read_into : from_hex_into (codes "0a") 1 ≡ (true, 10 ∷ [])
unfolding from_hex_into from_hex_char? character_value
read_into = refl

from_hex-to_hex_example : from_hex (to_hex (0xca ∷ 0x0f ∷ [])) ≡ ok (0xca ∷ 0x0f ∷ [])
from_hex-to_hex_example = from_hex-to_hex (0xca ∷ 0x0f ∷ []) (omega arith)

to_hex-from_hex_example : to_hex (0xca ∷ 0x0f ∷ []) ≡ map lower (codes "CA0f")
to_hex-from_hex_example =
    to_hex-from_hex (codes "CA0f") (0xca ∷ 0x0f ∷ []) (omega arith) read_capital
