-- ===== src/Currency/Params.antt =====
-- The constructor of `Currency` with the constants of CryptoNoteConfig.hpp. The genesis block, which
-- the constructor reads and hashes, is not part of the record.
use naza.Common.{ℕ, ◌+◌, ◌-◌, ◌*◌, ◌/◌, ◌^◌, Bool, if◌then◌else◌}

pub record Currency : Type 0 where
  pub is_testnet : Bool
  pub max_block_height : ℕ
  pub max_tx_size : ℕ
  pub mined_money_unlock_window : ℕ
  pub timestamp_check_window : ℕ
  pub block_future_time_limit : ℕ
  pub money_supply : ℕ
  pub emission_speed_factor : ℕ
  pub reward_blocks_window : ℕ
  pub block_granted_full_reward_zone : ℕ
  pub miner_tx_blob_reserved_size : ℕ
  pub default_dust_threshold : ℕ
  pub difficulty_target : ℕ
  pub difficulty_window : ℕ
  pub difficulty_lag : ℕ
  pub difficulty_cut : ℕ
  pub max_block_size_initial : ℕ
  pub max_block_size_growth_speed_numerator : ℕ
  pub max_block_size_growth_speed_denominator : ℕ
  pub locked_tx_allowed_delta_seconds : ℕ
  pub locked_tx_allowed_delta_blocks : ℕ
  pub upgrade_height_v2 : ℕ
  pub upgrade_height_v3 : ℕ
  pub upgrade_height_v4 : ℕ
  pub hardfork_v1_height : ℕ
  pub hardfork_v2_height : ℕ
  pub hardfork_v3_height : ℕ
  pub timestamp_check_window_v2 : ℕ
  pub block_future_time_limit_v2 : ℕ
  pub difficulty_window_v2 : ℕ
  pub difficulty_blocks_count_v2 : ℕ

-- `static_cast<Height>(-1)`
abbrev pub height_none : ℕ
height_none = 2 ^ 32 - 1

abbrev pub make_currency : Bool → Currency
make_currency is_testnet =
    let target : ℕ = if is_testnet then 1 else 60 in
    record {
      is_testnet = is_testnet;
      max_block_height = 500000000;
      max_tx_size = 1000000000;
      mined_money_unlock_window = 10;
      timestamp_check_window = 60;
      block_future_time_limit = 60 * 60 * 2;
      money_supply = 2 ^ 64 - 1;
      emission_speed_factor = 16;
      reward_blocks_window = 100;
      block_granted_full_reward_zone = 100000;
      miner_tx_blob_reserved_size = 600;
      default_dust_threshold = 1000000;
      difficulty_target = target;
      difficulty_window = 24 * 60 * 60 / target;
      difficulty_lag = 15;
      difficulty_cut = 60;
      max_block_size_initial = 20 * 1024;
      max_block_size_growth_speed_numerator = 100 * 1024;
      max_block_size_growth_speed_denominator = 365 * 24 * 60 * 60 / target;
      locked_tx_allowed_delta_seconds = target * 1;
      locked_tx_allowed_delta_blocks = 1;
      upgrade_height_v2 = if is_testnet then 0 else 1;
      upgrade_height_v3 = if is_testnet then height_none else 2;
      upgrade_height_v4 = 7080;
      hardfork_v1_height = 7070;
      hardfork_v2_height = 7080;
      hardfork_v3_height = 4294967294;
      timestamp_check_window_v2 = 11;
      block_future_time_limit_v2 = 60 * 3;
      difficulty_window_v2 = 60;
      difficulty_blocks_count_v2 = 60 + 1;
    }
