-- ===== src/Currency.antt =====
-- Core/Currency.cpp and .hpp: the rules of the coin, over the parameters of CryptoNoteConfig.hpp.
-- Amounts are below 2^64; heights, sizes and timestamps are below 2^32.
pub mod Params
pub mod Reward
pub mod Rules
pub mod NextDifficulty
pub mod Checkpoints
mod Tests
pub use Params.{Currency, make_currency, height_none}
use naza.Common.{ℕ, zero, suc, ◌+◌, ◌-◌, ◌*◌, ◌/◌, ◌%◌, ◌^◌}
use naza.Common.{List, [], ◌∷◌, ◌++◌, Option, none, some}
use naza.Common.{Bool, true, false, not, ◌&&◌, ◌||◌, ltb, leb, ◌==◌, if◌then◌else◌}
use naza.Words.{Wide, mul128, LongQuotient, div128_32}
use Prim.Native.Nat.{min}

unfoldable pub get_block_major_version_for_height : Currency → ℕ → ℕ
get_block_major_version_for_height c height =
    if leb height c.upgrade_height_v2
    then 1
    else if ltb c.upgrade_height_v2 height && leb height c.upgrade_height_v3
    then 2
    else if ltb c.upgrade_height_v3 height && leb height c.upgrade_height_v4
    then 3
    else 4

unfoldable pub block_granted_full_reward_zone_by_block_version : Currency → ℕ → ℕ
block_granted_full_reward_zone_by_block_version c block_major_version =
    if leb 3 block_major_version
    then c.block_granted_full_reward_zone
    else if block_major_version == 2
    then 20000
    else 10000

-- The subtraction is that of `uint64_t`.
unfoldable pub calc_base_reward : Currency → ℕ → ℕ → ℕ
calc_base_reward c block_major_version already_generated_coins =
    let base_reward =
      (c.money_supply + 2 ^ 64 - already_generated_coins) % 2 ^ 64 / 2 ^ c.emission_speed_factor in
    if leb 4 block_major_version && leb 32 base_reward then base_reward / 32 else base_reward

-- The two divisions by the median; the asserts in the code are the theorems about it.
unfoldable pub get_penalized_amount : ℕ → ℕ → ℕ → ℕ
get_penalized_amount amount median_size current_block_size =
    if amount == 0
    then 0
    else if leb current_block_size median_size
    then amount
    else let factor = (2 * median_size + 2 ^ 64 - current_block_size) % 2 ^ 64 in
      let product = mul128 amount (current_block_size * factor % 2 ^ 64) in
      let once = div128_32 product.hi product.lo (median_size % 2 ^ 32) in
      let twice = div128_32 once.quotient_hi once.quotient_lo (median_size % 2 ^ 32) in
      twice.quotient_lo

pub record BlockReward : Type 0 where
  pub reward : ℕ
  pub emission_change : ℕ

-- `emission_change` is a `SignedAmount`; the field holds its 64-bit pattern.
unfoldable pub get_block_reward : Currency → ℕ → ℕ → ℕ → ℕ → ℕ → BlockReward
get_block_reward c block_major_version effective_median_size current_block_size
      already_generated_coins fee =
    let base_reward = calc_base_reward c block_major_version already_generated_coins in
    let penalized_base_reward =
      get_penalized_amount base_reward effective_median_size current_block_size in
    let penalized_fee =
      if leb 2 block_major_version
      then get_penalized_amount fee effective_median_size current_block_size
      else fee in
    record {
      reward = (penalized_base_reward + penalized_fee) % 2 ^ 64;
      emission_change =
          (penalized_base_reward + 2 ^ 64 - (fee + 2 ^ 64 - penalized_fee) % 2 ^ 64) % 2 ^ 64;
    }

unfoldable pub max_block_cumulative_size : Currency → ℕ → ℕ
max_block_cumulative_size c height =
    (c.max_block_size_initial
      + height
        * c.max_block_size_growth_speed_numerator
        % 2 ^ 64
        / c.max_block_size_growth_speed_denominator)
    % 2 ^ 64
    % 2 ^ 32

unfoldable pub max_transaction_allowed_size : Currency → ℕ → ℕ
max_transaction_allowed_size c effective_block_size_median =
    min c.max_tx_size
      ((effective_block_size_median * 2 % 2 ^ 32 + 2 ^ 32 - c.miner_tx_blob_reserved_size) % 2 ^ 32)

unfoldable pub get_timestamp_check_window : Currency → ℕ → ℕ
get_timestamp_check_window c height =
    if leb c.hardfork_v2_height height
    then c.timestamp_check_window_v2
    else c.timestamp_check_window

unfoldable pub get_block_future_time_limit : Currency → ℕ → ℕ
get_block_future_time_limit c height =
    if leb c.hardfork_v2_height height
    then c.block_future_time_limit_v2
    else c.block_future_time_limit

unfoldable pub get_difficulty_blocks_count : Currency → ℕ → ℕ
get_difficulty_blocks_count c height =
    if leb height c.hardfork_v2_height
    then c.difficulty_window + c.difficulty_lag
    else c.difficulty_blocks_count_v2

-- A moment below `max_block_height` is a height, and any other is a time. Both sums wrap at 32 bits.
unfoldable pub is_transaction_spend_time_unlocked : Currency → ℕ → ℕ → ℕ → Bool
is_transaction_spend_time_unlocked c unlock_time block_index block_time =
    if ltb unlock_time c.max_block_height
    then leb unlock_time ((block_index + c.locked_tx_allowed_delta_blocks) % 2 ^ 32)
    else leb unlock_time ((block_time + c.locked_tx_allowed_delta_seconds) % 2 ^ 32)
