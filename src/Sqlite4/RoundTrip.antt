-- ===== src/Sqlite4/RoundTrip.antt =====
-- `write_varint_sqlite4` by the class of its value, and reading it back.
use native.Mathlib.Decide.{dec_le}
use naza.Common.{ℕ, ◌+◌, ◌-◌, ◌/◌, ◌%◌, ◌^◌, ◌≤◌, ◌<◌}
use naza.Common.{◌≡◌, refl, ◌∙◌, arith}
use naza.Common.{◌==◌, if◌then◌else◌}
use naza.Common.{List, [], ◌∷◌, ◌++◌}
use naza.Common.{length, length-append}
use naza.Common.{take-append, drop-append}
use naza.Sqlite4.{ok, throw, excess_symbols}
use naza.Sqlite4.{uint_be_to_bytes, get_varint_sqlite4_size}
use naza.Sqlite4.{read_after, read_varint_sqlite4, read_whole, write_varint_sqlite4}
use naza.Sqlite4.BigEndian.{length-uint_be_to_bytes, uint_be_loop-to_bytes}

-- The tail of an encoding with tag `247 + n`.
pub read_after-big :
    (n v : ℕ) (rest : List ℕ)
    → 3 ≤ n
    → n ≤ 8
    → v < 256 ^ n
    → read_after (247 + n) (uint_be_to_bytes n v ++ rest) ≡ ok (v, rest)
unfolding read_after
read_after-big n v rest lo hi fits = ground (
  arith,
  length-append (uint_be_to_bytes n v) rest,
  length-uint_be_to_bytes n v,
  take-append (uint_be_to_bytes n v) rest n,
  drop-append (uint_be_to_bytes n v) rest n,
  uint_be_loop-to_bytes n v hi fits,
)

pub read_varint_sqlite4-cons :
    (a : ℕ) (rest : List ℕ) → read_varint_sqlite4 (a ∷ rest) ≡ read_after a rest
unfolding read_varint_sqlite4
read_varint_sqlite4-cons a rest = ground arith

-- The three short forms.
pub write_one : (v : ℕ) → v ≤ 240 → write_varint_sqlite4 v ≡ v ∷ []
unfolding write_varint_sqlite4
write_one v h = ground arith

pub write_two :
    (v : ℕ)
    → 240 < v
    → v ≤ 2287
    → write_varint_sqlite4 v ≡ ((v - 240) / 256 + 241) ∷ ((v - 240) % 256) ∷ []
unfolding write_varint_sqlite4
write_two v lo hi = ground arith

pub write_three :
    (v : ℕ)
    → 2287 < v
    → v ≤ 67823
    → write_varint_sqlite4 v ≡ 249 ∷ ((v - 2288) / 256) ∷ ((v - 2288) % 256) ∷ []
unfolding write_varint_sqlite4
write_three v lo hi = ground arith

-- The long forms: `n` bytes behind the tag, and no fewer would do but for the shortest.
pub record IsLong (v n : ℕ) : Type 0 where
  pub least : 3 ≤ n
  pub most : n ≤ 8
  pub fits : v < 256 ^ n
  pub needed : 4 ≤ n → 256 ^ (n - 1) ≤ v
  pub written : write_varint_sqlite4 v ≡ (247 + n) ∷ uint_be_to_bytes n v

abbrev pub long_size : ℕ → ℕ
long_size v = get_varint_sqlite4_size v - 1

pub write_varint_sqlite4-IsLong : (v : ℕ) → 67823 < v → v < 2 ^ 64 → IsLong v (long_size v)
unfolding write_varint_sqlite4 get_varint_sqlite4_size
write_varint_sqlite4-IsLong v lo hi = record {
  least = ground arith;
  most = ground arith;
  fits = ground arith;
  needed = λ h. ground arith;
  written = ground arith;
}

-- Reading gives back every 64-bit integer that was written, and leaves what follows it.
pub read-write_varint_sqlite4 :
    (v : ℕ) (rest : List ℕ)
    → v < 2 ^ 64
    → read_varint_sqlite4 (write_varint_sqlite4 v ++ rest) ≡ ok (v, rest)
read-write_varint_sqlite4 v rest h = elim (dec_le v 240) [
  | yes p ↦ rw (write_one v p) (read_varint_sqlite4-cons v rest ∙ unfold read_after in ground arith)
  | no p ↦ elim (dec_le v 2287) [
    | yes q ↦
        rw (write_two v (omega arith) q)
          (read_varint_sqlite4-cons _ _ ∙ unfold read_after in ground arith)
    | no q ↦ elim (dec_le v 67823) [
      | yes r ↦
          rw (write_three v (omega arith) r)
            (read_varint_sqlite4-cons _ _ ∙ unfold read_after in ground arith)
      | no r ↦
          let long = write_varint_sqlite4-IsLong v (omega arith) h in
          rw (long.written) (
            read_varint_sqlite4-cons _ _
            ∙ read_after-big (long_size v) v rest long.least long.most long.fits)
    ]
  ]
]

-- `get_varint_sqlite4_size` tells the length of what `write_varint_sqlite4` writes.
pub length-write_varint_sqlite4 :
    (v : ℕ) → length (write_varint_sqlite4 v) ≡ get_varint_sqlite4_size v
unfolding write_varint_sqlite4 get_varint_sqlite4_size
length-write_varint_sqlite4 v = ground (
  arith,
  length-uint_be_to_bytes 3 v,
  length-uint_be_to_bytes 4 v,
  length-uint_be_to_bytes 5 v,
  length-uint_be_to_bytes 6 v,
  length-uint_be_to_bytes 7 v,
  length-uint_be_to_bytes 8 v,
)

-- The overload for whole strings gives back a written 64-bit integer where nothing follows it, and
-- throws on excess symbols otherwise.
pub read_whole-write :
    (v : ℕ) (rest : List ℕ)
    → v < 2 ^ 64
    → read_whole (write_varint_sqlite4 v ++ rest)
      ≡ (if length rest == 0 then ok v else throw excess_symbols)
unfolding read_whole
read_whole-write v rest h = rw (read-write_varint_sqlite4 v rest h) refl
