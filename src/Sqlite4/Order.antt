-- ===== src/Sqlite4/Order.antt =====
-- `write_varint_sqlite4` sorts.
use native.Mathlib.Decide.{dec_le, dec_lt}
use naza.Common.{ℕ, ◌+◌, ◌-◌, ◌/◌, ◌%◌, ◌^◌, ◌≤◌, ◌<◌}
use naza.Common.{◌≡◌, sym, ap, ◌∙◌, arith}
use naza.Common.{true}
use naza.Common.{List, [], ◌∷◌, ◌++◌}
use naza.Sqlite4.{write_varint_sqlite4, get_varint_sqlite4_size}
use naza.Sqlite4.BigEndian.{bytes_lt, bytes_lt-uint_be, length-uint_be_to_bytes}
use naza.Sqlite4.BigEndian.{bytes_lt-append_right}
use naza.Sqlite4.RoundTrip.{
  write_one, write_two, write_three, long_size, write_varint_sqlite4-IsLong,
}

first_below : (a b : ℕ) (xs ys : List ℕ) → a < b → bytes_lt (a ∷ xs) (b ∷ ys) ≡ true
unfolding bytes_lt
first_below a b xs ys h = ground arith

first_same :
    (a b : ℕ) (xs ys : List ℕ) → a ≡ b → bytes_lt xs ys ≡ true → bytes_lt (a ∷ xs) (b ∷ ys) ≡ true
unfolding bytes_lt
first_same a b xs ys h lt = ground arith

-- The short forms are read off their bytes, one pair of classes at a time.
module _ (v w : ℕ) (us vs : List ℕ) (h : v < w) where
  below_one :
      w ≤ 240 → bytes_lt (write_varint_sqlite4 v ++ us) (write_varint_sqlite4 w ++ vs) ≡ true
  below_one p = rw (write_one v (omega arith), write_one w p) (first_below v w us vs h)

  below_two :
      240 < w
      → w ≤ 2287
      → bytes_lt (write_varint_sqlite4 v ++ us) (write_varint_sqlite4 w ++ vs) ≡ true
  below_two lo hi = elim (dec_le v 240) [
    | yes p ↦ rw (write_one v p, write_two w lo hi) (first_below _ _ _ _ (omega arith))
    | no p ↦
        rw (write_two v (omega arith) (omega arith), write_two w lo hi)
          (unfold bytes_lt in ground arith)
  ]

  below_three :
      2287 < w
      → w ≤ 67823
      → bytes_lt (write_varint_sqlite4 v ++ us) (write_varint_sqlite4 w ++ vs) ≡ true
  below_three lo hi = elim (dec_le v 240) [
    | yes p ↦ rw (write_one v p, write_three w lo hi) (first_below _ _ _ _ (omega arith))
    | no p ↦ elim (dec_le v 2287) [
      | yes q ↦
          rw (write_two v (omega arith) q, write_three w lo hi) (first_below _ _ _ _ (omega arith))
      | no q ↦
          rw (write_three v (omega arith) (omega arith), write_three w lo hi)
            (unfold bytes_lt in ground arith)
    ]
  ]

  short_below :
      w ≤ 67823 → bytes_lt (write_varint_sqlite4 v ++ us) (write_varint_sqlite4 w ++ vs) ≡ true
  short_below p = elim (dec_le w 240) [
    | yes a ↦ below_one a
    | no a ↦ elim (dec_le w 2287) [
      | yes b ↦ below_two (omega arith) b
      | no b ↦ below_three (omega arith) p
    ]
  ]

-- A short form has a first byte below every long one's.
short_first :
    (v : ℕ) → v ≤ 67823 → (a : ℕ) × (xs : List ℕ) × (write_varint_sqlite4 v ≡ a ∷ xs) × (a ≤ 249)
short_first v h = elim (dec_le v 240) [
  | yes p ↦ (v, [], write_one v p, omega arith)
  | no p ↦ elim (dec_le v 2287) [
    | yes q ↦
        ((v - 240) / 256 + 241, ((v - 240) % 256) ∷ [], write_two v (omega arith) q, omega arith)
    | no q ↦ (
      249,
      ((v - 2288) / 256) ∷ ((v - 2288) % 256) ∷ [],
      write_three v (omega arith) h,
      omega arith,
    )
  ]
]

-- A larger value needs no shorter tail.
long_size_mono : (v w : ℕ) → v ≤ w → long_size v ≤ long_size w
unfolding get_varint_sqlite4_size
long_size_mono v w h = ground arith

long_below :
    (v w : ℕ) (us vs : List ℕ)
    → 67823 < v
    → v < w
    → w < 2 ^ 64
    → bytes_lt (write_varint_sqlite4 v ++ us) (write_varint_sqlite4 w ++ vs) ≡ true
long_below v w us vs lo h hw =
    let lv = write_varint_sqlite4-IsLong v lo (omega arith) in
    let lw = write_varint_sqlite4-IsLong w (omega arith) hw in
    rw (lv.written, lw.written)
      (elim (dec_lt (long_size v) (long_size w)) [
        | yes p ↦ first_below _ _ _ _ (omega arith)
        | no p ↦
            let same : long_size v ≡ long_size w =
              omega (arith, long_size_mono v w (omega arith)) in
            first_same _ _ _ _ (ap (λ (t : ℕ). 247 + t) same) (
              rw same (
                bytes_lt-append_right _ _ us vs
                  (length-uint_be_to_bytes (long_size w) v
                    ∙ sym (length-uint_be_to_bytes (long_size w) w))
                  (bytes_lt-uint_be (long_size w) v w h lw.fits)))
      ])

-- Of two 64-bit integers the smaller one has the smaller encoding in the order of byte strings,
-- whatever follows both.
pub write_varint_sqlite4_order :
    (v w : ℕ) (us vs : List ℕ)
    → v < w
    → w < 2 ^ 64
    → bytes_lt (write_varint_sqlite4 v ++ us) (write_varint_sqlite4 w ++ vs) ≡ true
write_varint_sqlite4_order v w us vs h hw = elim (dec_le w 67823) [
  | yes p ↦ short_below v w us vs h p
  | no p ↦ elim (dec_le v 67823) [
    | yes q ↦
        let (a, xs, written, small) = short_first v q in
        let long = write_varint_sqlite4-IsLong w (omega arith) hw in
        rw (written, long.written) (first_below _ _ _ _ (omega (arith, long.least)))
    | no q ↦ long_below v w us vs (omega arith) h hw
  ]
]
