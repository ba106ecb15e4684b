-- ===== src/Currency/Checkpoints.antt =====
-- `Currency` on checkpoints and on the second difficulty algorithm. Signed 64-bit numbers are their
-- patterns.
use Prim.Native.Nat.{min}
use naza.Common.{
  ℕ, zero, suc, ◌+◌, ◌-◌, ◌*◌, ◌/◌, ◌%◌, ◌^◌, List, [], ◌∷◌, Option, none, some, length,
}
use naza.Common.{Bool, true, false, not, ◌||◌, ltb, leb, ◌==◌, if◌then◌else◌}
use naza.Currency.{Currency}
use naza.Currency.NextDifficulty.{next_difficulty_v1, at}

-- A checkpoint's hash is the number that its hexadecimal text spells.
pub record CheckpointData : Type 0 where
  pub height : ℕ
  pub hash : ℕ

abbrev pub checkpoints : List CheckpointData
checkpoints =
    record {
      height = 7100;
      hash = 39438879491260316794244940723990149988003496183540374024240715481364983914262;
    }
    ∷ record {
      height = 15000;
      hash = 53799917007843798107768749457194649921545142836904617032807497045405347281157;
    }
    ∷ record {
      height = 20000;
      hash = 52940901929583576688885046864668141410541504132661858119854143692516158421518;
    }
    ∷ record {
      height = 30000;
      hash = 71880273611148410612297048686549314152391857699896894027298903427910213026614;
    }
    ∷ record {
      height = 80000;
      hash = 7306445974868518739426906002794850635700782031859435594364460403303128089229;
    }
    ∷ []

abbrev pub last_height : List CheckpointData → ℕ
last_height [] = 0
last_height (entry ∷ []) = entry.height
last_height (entry ∷ next ∷ rest) = last_height (next ∷ rest)

unfoldable pub is_in_sw_checkpoint_zone : Currency → ℕ → Bool
is_in_sw_checkpoint_zone c index =
    if c.is_testnet then index == 0 else leb index (last_height checkpoints)

-- `std::lower_bound` over the heights, and the test of the checkpoint that it finds; the answer and
-- `is_sw_checkpoint`.
abbrev pub find_checkpoint : List CheckpointData → ℕ → ℕ → Bool × Bool
find_checkpoint [] index h = (true, false)
find_checkpoint (entry ∷ rest) index h =
    if ltb entry.height index
    then find_checkpoint rest index h
    else if not (entry.height == index)
    then (true, false)
    else (h == entry.hash, true)

unfoldable pub check_sw_checkpoint : Currency → ℕ → ℕ → ℕ → Bool × Bool
check_sw_checkpoint c genesis_block_hash index h =
    if c.is_testnet || index == 0
    then (if index == 0 then h == genesis_block_hash else true, index == 0)
    else find_checkpoint checkpoints index h

-- The pattern of `max(-FTL, min(t1 - t0, 6 * T))`.
abbrev pub solve_time : Currency → ℕ → ℕ → ℕ
solve_time c t0 t1 =
    if leb t0 t1
    then min (t1 - t0) (6 * c.difficulty_target)
    else (2 ^ 64 - min (t0 - t1) c.block_future_time_limit_v2) % 2 ^ 64

-- `L` after the first `n` rounds of the loop.
abbrev pub weighted_times : Currency → List ℕ → ℕ → ℕ
weighted_times c timestamps zero = 0
weighted_times c timestamps (suc n) =
    (weighted_times c timestamps n
      + solve_time c (at timestamps n) (at timestamps (suc n)) * suc n % 2 ^ 64)
    % 2 ^ 64

-- `sum_3_ST` after the first `n` rounds of the loop.
abbrev pub last_times : Currency → List ℕ → ℕ → ℕ
last_times c timestamps zero = 0
last_times c timestamps (suc n) =
    (last_times c timestamps n
      + (if ltb c.difficulty_window_v2 (suc n + 3)
          then solve_time c (at timestamps n) (at timestamps (suc n))
          else 0))
    % 2 ^ 64

-- `x / 100` of a signed number.
abbrev pub signed_hundredth : ℕ → ℕ
signed_hundredth x = if ltb x (2 ^ 63) then x / 100 else (2 ^ 64 - (2 ^ 64 - x) / 100) % 2 ^ 64

-- `none` for the division by zero where `L` is 0, also where the quotient is not used. The quotient is
-- one of unsigned numbers, since the difficulties are.
unfoldable pub next_difficulty_v2 : Currency → List ℕ → List ℕ → Option ℕ
next_difficulty_v2 c timestamps cumulative_difficulties =
    let n = c.difficulty_window_v2 in
    let t = c.difficulty_target in
    let l = weighted_times c timestamps n in
    let last = at cumulative_difficulties n in
    let divisor = 200 * l % 2 ^ 64 in
    let work = (last + 2 ^ 64 - at cumulative_difficulties 0) % 2 ^ 64 in
    let sum = last_times c timestamps n in
    let prev = (last + 2 ^ 64 - at cumulative_difficulties (n - 1)) % 2 ^ 64 in
    if leb (length timestamps) n
    then some 1000
    else if divisor == 0
    then none
    else if leb (2 ^ 63) sum || ltb sum (8 * t / 10)
    then some (signed_hundredth (prev * 110 % 2 ^ 64))
    else some (work * t * (n + 1) * 99 % 2 ^ 64 / divisor)

unfoldable pub next_difficulty : Currency → ℕ → List ℕ → List ℕ → Option ℕ
next_difficulty c block_index timestamps cumulative_difficulties =
    if leb block_index c.hardfork_v2_height
    then some (next_difficulty_v1 c block_index timestamps cumulative_difficulties)
    else next_difficulty_v2 c timestamps cumulative_difficulties
