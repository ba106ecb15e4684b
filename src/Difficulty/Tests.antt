-- ===== src/Difficulty/Tests.antt =====
-- Runs of the hash check, and its theorem at a concrete hash.
use naza.Common.{◌*◌, ◌^◌, ◌<◌, ◌≡◌, ◌↔◌, refl, arith, true, false}
use naza.Words.{mul128}
use naza.Difficulty.{HashWords, check_hash}
use naza.Difficulty.Check.{value, check_hash_iff}

abbrev small_hash : HashWords
small_hash = record { w0 = 7; w1 = 0; w2 = 0; w3 = 2 ^ 60 }

passes : check_hash small_hash 15 ≡ true
unfolding check_hash mul128
passes = refl

too_weak : check_hash small_hash 16 ≡ false
unfolding check_hash mul128
too_weak = refl

check_hash_iff_example : (check_hash small_hash 15 ≡ true) ↔ (value small_hash * 15 < 2 ^ 256)
check_hash_iff_example = check_hash_iff small_hash 15 (omega arith) (omega arith)
