-- ===== src/Currency/Rules.antt =====
-- Block versions and unlock times: neither goes back as the chain grows.
use naza.Common.{ℕ, ◌+◌, ◌^◌, ◌≤◌, ◌<◌}
use naza.Common.{◌≡◌, arith}
use naza.Common.{true}
use naza.Currency.{Currency, get_block_major_version_for_height, is_transaction_spend_time_unlocked}

-- Whatever the upgrade heights are, the block version is between 1 and 4 and does not fall as the
-- height grows.
pub block_major_version_mono :
    (c : Currency) (height later : ℕ)
    → height ≤ later
    → (1 ≤ get_block_major_version_for_height c height)
      × (get_block_major_version_for_height c height ≤ get_block_major_version_for_height c later)
      × (get_block_major_version_for_height c later ≤ 4)
unfolding get_block_major_version_for_height
block_major_version_mono c height later h = (ground arith, ground arith, ground arith)

-- An output that can be spent at a height and a time can be spent at every later height and time,
-- as long as these do not overflow with the allowed deltas.
pub spend_time_unlocked_mono :
    (c : Currency) (unlock_time index time later_index later_time : ℕ)
    → index ≤ later_index
    → time ≤ later_time
    → later_index + c.locked_tx_allowed_delta_blocks < 2 ^ 32
    → later_time + c.locked_tx_allowed_delta_seconds < 2 ^ 32
    → is_transaction_spend_time_unlocked c unlock_time index time ≡ true
    → is_transaction_spend_time_unlocked c unlock_time later_index later_time ≡ true
unfolding is_transaction_spend_time_unlocked
spend_time_unlocked_mono c unlock_time index time later_index later_time hi ht wi wt h =
    ground arith
