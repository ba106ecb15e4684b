-- ===== src/Base58/Tests.antt =====
-- Runs of the base 58 code, and its theorems at concrete bytes.
use naza.Common.{ℕ, ◌≡◌, ◌<◌, ◌^◌, ◌++◌, ◌⊎◌, refl, arith, List, [], ◌∷◌, none, some, replicate}
use naza.Common.{take, All, IsByte}
use naza.Hex.{codes}
use naza.Varint.Canonical.{HasMore}
use naza.Varint.{read_varint}
use naza.Base58.{encode, decode, encode_blocks, encode_block, decode_blocks, decode_block}
use naza.Base58.{decoded_block_sizes, reverse_alphabet, encode_addr, decode_addr}
use naza.Base58.RoundTrip.{decode-encode, encode-decode}
use naza.Base58.Address.{IsHash, decode_addr-encode_addr, decode_addr_sound}

written : encode (0xff ∷ 0xff ∷ []) ≡ codes "LUv"
unfolding encode encode_blocks encode_block
written = refl

read_back : decode (codes "LUv") ≡ some (0xff ∷ 0xff ∷ [])
unfolding decode decode_blocks decode_block decoded_block_sizes reverse_alphabet
read_back = refl

-- One letter more than a block of two bytes can hold.
read_over : decode (codes "LUw") ≡ none
unfolding decode decode_blocks decode_block decoded_block_sizes reverse_alphabet
read_over = refl

-- A hash for the examples: 32 zero bytes.
abbrev zero_hash : List ℕ → List ℕ
zero_hash xs = replicate 32 0

zero_hash-IsHash : IsHash zero_hash
zero_hash-IsHash = record { size = λ xs. refl; bytes = λ xs. omega arith }

decode-encode_example : decode (encode (0xff ∷ 0xff ∷ [])) ≡ some (0xff ∷ 0xff ∷ [])
decode-encode_example = decode-encode (0xff ∷ 0xff ∷ []) (omega arith)

encode-decode_example : (encode (0xff ∷ 0xff ∷ []) ≡ codes "LUv") × All IsByte (0xff ∷ 0xff ∷ [])
encode-decode_example = encode-decode (codes "LUv") (0xff ∷ 0xff ∷ []) (omega arith) read_back

decode_addr-encode_addr_example :
    decode_addr zero_hash (encode_addr zero_hash 126 (9 ∷ [])) ≡ some (126, 9 ∷ [])
decode_addr-encode_addr_example =
    decode_addr-encode_addr zero_hash zero_hash-IsHash 126 (9 ∷ []) (omega arith) (omega arith)

abbrev nine : List ℕ
nine = 9 ∷ []

abbrev address : List ℕ
address = codes "25mBnYSoh"

address_decodes : decode_addr zero_hash address ≡ some (126, 9 ∷ [])
unfolding decode_addr decode decode_blocks decode_block decoded_block_sizes reverse_alphabet
    read_varint
address_decodes = refl

decode_addr_sound_example :
    ((126 < 2 ^ 64) × (address ≡ encode_addr zero_hash 126 (9 ∷ [])))
    ⊎ ((nine ≡ [])
        × (body : List ℕ) × All HasMore body
        × (address ≡ encode (body ++ take 4 (zero_hash body))))
decode_addr_sound_example =
    decode_addr_sound zero_hash zero_hash-IsHash 126 address (9 ∷ []) (omega arith) address_decodes

-- An address whose tag has no last byte is accepted: the body is the single byte 0x80.
address_cut : decode_addr zero_hash (encode (0x80 ∷ 0 ∷ 0 ∷ 0 ∷ 0 ∷ [])) ≡ some (0, [])
unfolding decode_addr decode decode_blocks decode_block decoded_block_sizes reverse_alphabet
    read_varint encode encode_blocks encode_block
address_cut = refl
