-- ===== src/Varint/Tests.antt =====
-- Runs of the varint code, and its theorems at concrete inputs.
use naza.Common.{ℕ, ◌^◌, ◌<◌, ◌≡◌, refl, arith, ◌⊎◌}
use naza.Common.{List, [], ◌∷◌, ◌++◌, length, All}
use naza.Varint.{ReadCode, write_varint, read_varint_bits, read_varint}
use naza.Varint.Read.{read_varint-write_varint}
use naza.Varint.Canonical.{counted, HasMore, read_varint_sound}

write_300 : write_varint 300 ≡ 0xac ∷ 0x02 ∷ []
unfolding write_varint
write_300 = refl

read_padded : (read_varint 64 (0x80 ∷ 0x00 ∷ [])).code ≡ ReadCode.non_canonical
unfolding read_varint
read_padded = refl

read_too_wide : (read_varint_bits 8 8 (0xff ∷ 0x02 ∷ [])).code ≡ ReadCode.overflow
unfolding read_varint_bits
read_too_wide = refl

-- Input that ends inside a number is no error: the call returns the count of its bytes.
read_cut : read_varint_bits 64 64 (0x80 ∷ []) ≡ counted 1 0 []
unfolding read_varint_bits
read_cut = refl

read_varint-write_varint_example :
    read_varint_bits 64 64 (write_varint 300 ++ (7 ∷ []))
    ≡ record { code = ReadCode.count (length (write_varint 300)); value = 300; rest = 7 ∷ [] }
read_varint-write_varint_example =
    read_varint-write_varint 64 64 300 (7 ∷ []) (omega arith) (omega arith)

abbrev one : ℕ
one = 1

abbrev no_bytes : List ℕ
no_bytes = []

read_varint_sound_example :
    ((0 < 2 ^ 64) × (0x80 ∷ no_bytes ≡ write_varint 0 ++ []) × (one ≡ length (write_varint 0)))
    ⊎ ((no_bytes ≡ []) × (one ≡ 1) × All HasMore (0x80 ∷ []))
read_varint_sound_example =
    read_varint_sound 64 64 1 0 (0x80 ∷ []) [] (omega arith) (omega arith) read_cut
