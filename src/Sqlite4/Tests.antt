-- ===== src/Sqlite4/Tests.antt =====
-- Runs of the sortable integers, and the theorems at concrete inputs.
use naza.Common.{◌≡◌, refl, arith, true}
use naza.Common.{[], ◌∷◌, ◌++◌}
use naza.Sqlite4.{ok, throw, end_of_read}
use naza.Sqlite4.{read_varint_sqlite4, write_varint_sqlite4}
use naza.Sqlite4.BigEndian.{bytes_lt}
use naza.Sqlite4.RoundTrip.{read-write_varint_sqlite4}
use naza.Sqlite4.Order.{write_varint_sqlite4_order}

write_70000 : write_varint_sqlite4 70000 ≡ 250 ∷ 1 ∷ 17 ∷ 112 ∷ []
unfolding write_varint_sqlite4
write_70000 = refl

read_short : read_varint_sqlite4 (250 ∷ 1 ∷ []) ≡ throw end_of_read
unfolding read_varint_sqlite4
read_short = refl

read-write_varint_sqlite4_example :
    read_varint_sqlite4 (write_varint_sqlite4 70000 ++ (5 ∷ [])) ≡ ok (70000, 5 ∷ [])
read-write_varint_sqlite4_example = read-write_varint_sqlite4 70000 (5 ∷ []) (omega arith)

write_varint_sqlite4_order_example :
    bytes_lt (write_varint_sqlite4 300 ++ (9 ∷ [])) (write_varint_sqlite4 70000 ++ []) ≡ true
write_varint_sqlite4_order_example =
    write_varint_sqlite4_order 300 70000 (9 ∷ []) [] (omega arith) (omega arith)
