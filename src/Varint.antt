-- ===== src/Varint.antt =====
-- common/Varint.hpp: integers in groups of seven bits, lowest group first.
-- The iterators are the list of bytes that is still to be read, and the bytes that are written.
pub mod Write
pub mod Read
pub mod Canonical
mod Tests
use mathlib.Core.Logic.{dite}
use mathlib.Core.WellFounded.{Acc}
use native.Mathlib.Decide.{dec_le}
use naza.Common.{ℕ, zero, ◌+◌, ◌-◌, ◌*◌, ◌/◌, ◌%◌, ◌^◌, ◌≤◌, ◌<◌, bit_and, bit_or, arith}
use naza.Common.{List, [], ◌∷◌, Bool, not, ◌&&◌, leb, ◌==◌, if◌then◌else◌}
use naza.Common.WellFounded.{lt_wf}

pub shift_shrinks : (i : ℕ) → 0x80 ≤ i → i / 128 < i
shift_shrinks i h = omega arith

-- `*dest++ = (static_cast<uint8_t>(i) & 0x7f) | 0x80; i >>= 7;` while `i >= 0x80`.
write_loop : (i : ℕ) → Acc ◌<◌ i → List ℕ
write_loop i (Acc.intro _ smaller) =
    dite (dec_le 0x80 i)
      (λ more.
        bit_or (bit_and (i % 256) 0x7f) 0x80
        ∷ write_loop (i / 128) (smaller (i / 128) (shift_shrinks i more)))
      (λ _. (i % 256) ∷ [])

unfoldable pub write_varint : ℕ → List ℕ
unfolding write_loop lt_wf dec_le
write_varint i = write_loop i (lt_wf.apply i)

-- The `int` that `read_varint` returns: a count of bytes, -1 or -2.
pub data ReadCode : Type 0 where
  count : ℕ → ReadCode
  overflow non_canonical : ReadCode

-- What a call leaves behind: its result, `i` and what `first` has not passed.
pub record ReadResult : Type 0 where
  pub code : ReadCode
  pub value : ℕ
  pub rest : List ℕ

-- `byte >= 1 << (bits - shift)` in the last group.
abbrev pub too_wide : ℕ → ℕ → ℕ → Bool
too_wide bits shift byte = leb bits (shift + 7) && leb (2 ^ (bits - shift)) byte

-- `i |= static_cast<T>(byte & 0x7f) << shift` for an unsigned `T` of `width` bits.
abbrev pub add_group : ℕ → ℕ → ℕ → ℕ → ℕ
add_group width i byte shift = bit_or i (bit_and byte 0x7f * 2 ^ shift % 2 ^ width)

unfoldable pub read_loop : ℕ → ℕ → List ℕ → ℕ → ℕ → ℕ → ReadResult
read_loop bits width [] shift i read = record { code = ReadCode.count read; value = i; rest = [] }
read_loop bits width (byte ∷ first) shift i read =
    let i' = add_group width i byte shift in
    let more = read_loop bits width first (shift + 7) i' (read + 1) in
    if too_wide bits shift byte
    then record { code = ReadCode.overflow; value = i; rest = first }
    else if byte == 0 && not (shift == 0)
    then record { code = ReadCode.non_canonical; value = i; rest = first }
    else if bit_and byte 0x80 == 0
    then record { code = ReadCode.count (read + 1); value = i'; rest = first }
    else more

-- `read_varint<bits, InputIt, T>`.
unfoldable pub read_varint_bits : ℕ → ℕ → List ℕ → ReadResult
unfolding read_loop
read_varint_bits bits width first = read_loop bits width first 0 0 0

-- `read_varint<InputIt, T>`: as many bits as `T` has digits.
unfoldable pub read_varint : ℕ → List ℕ → ReadResult
unfolding read_varint_bits
read_varint width first = read_varint_bits width width first
