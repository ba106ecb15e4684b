-- ===== src/Consensus.antt =====
-- Core/BlockChainState.cpp: `check_standalone_consensus` and `calculate_consensus_values`. Keys, hashes
-- of transactions and the proof of work are judged by parameters. The medians that the code keeps for
-- the tip are computed for every parent here, as it computes them.
pub mod Sound
pub mod Sized
pub mod Accepted
pub mod Standalone
mod Tests
use Prim.Native.Nat.{max, min}
use naza.Common.{ℕ, ◌+◌, ◌-◌, ◌%◌, ◌^◌, List, [], ◌∷◌, Option, none, some, map, length}
use naza.Common.{Bool, true, false, not, ◌&&◌, ◌||◌, ltb, leb, ◌==◌, if◌then◌else◌}
use naza.Transaction.{TransactionInput, coinbase_input, key_input, TransactionOutput, Transaction}
use naza.Semantic.{Reason, fails, passes, get_key, validate_semantic, get_tx_fee}
use naza.Currency.{
  Currency, block_granted_full_reward_zone_by_block_version, max_transaction_allowed_size,
  max_block_cumulative_size, get_block_major_version_for_height, get_block_future_time_limit,
  get_timestamp_check_window, get_difficulty_blocks_count, get_block_reward,
}
use naza.Currency.Checkpoints.{is_in_sw_checkpoint_zone, check_sw_checkpoint, next_difficulty}
use naza.Median.{median_value}
use naza.Block.{BlockHeader, PreparedBlock}
use naza.BlockChain.Ancestor.{Headers}
use naza.BlockChain.Segment.{get_tip_segment}

-- The strings that the function returns; those of `validate_semantic` are in `invalid_transaction`.
pub data BlockError : Type 0 where
  wrong_transactions_count : BlockError
  raw_transaction_size_too_big : BlockError
  transaction_absent_in_pool : BlockError
  cumulative_block_size_too_big : BlockError
  wrong_version : BlockError
  parent_block_wrong_version : BlockError
  parent_block_size_too_big : BlockError
  timestamp_too_far_in_future : BlockError
  timestamp_too_far_in_past : BlockError
  input_wrong_count : BlockError
  input_unexpected_type : BlockError
  base_input_wrong_block_index : BlockError
  wrong_transaction_unlock_time : BlockError
  output_zero_amount : BlockError
  output_invalid_key : BlockError
  outputs_amount_overflow : BlockError
  difficulty_overhead : BlockError
  wrong_amount : BlockError
  block_reward_mismatch : BlockError
  invalid_transaction : (reason : Reason) → BlockError
  checkpoint_block_hash_mismatch : BlockError
  proof_of_work_too_weak : BlockError
  exception : BlockError

pub data Verdict (A : Type 0) : Type 0 where
  rejects : (error : BlockError) → Verdict A
  accepts : (value : A) → Verdict A

abbrev pub and_check : {A B : Type 0} → Verdict A → (A → Verdict B) → Verdict B
and_check (rejects error) f = rejects error
and_check (accepts value) f = f value

abbrev pub ensure : {B : Type 0} → Bool → BlockError → Verdict B → Verdict B
ensure ok error rest = if ok then rest else rejects error

abbrev pub or_exception : {A : Type 0} → Option A → Verdict A
or_exception none = rejects exception
or_exception (some value) = accepts value

-- The transactions of a block against their hashes and sizes; `cumulative_size`.
unfoldable pub check_raw_transactions :
    (Transaction → ℕ) → ℕ → List Transaction → List ℕ → List ℕ → ℕ → Verdict ℕ
check_raw_transactions get_transaction_hash max_size (tx ∷ txs) (hash ∷ hashes) (size ∷ sizes) sum =
    ensure (leb size max_size) raw_transaction_size_too_big (
      ensure (get_transaction_hash tx == hash) transaction_absent_in_pool
        (check_raw_transactions get_transaction_hash max_size txs hashes sizes (sum + size)))
check_raw_transactions get_transaction_hash max_size txs hashes sizes sum = accepts sum

-- The outputs of the base transaction; `miner_reward`.
unfoldable pub check_miner_outputs : (ℕ → Bool) → Bool → List TransactionOutput → ℕ → Verdict ℕ
check_miner_outputs key_isvalid check_keys [] miner_reward = accepts miner_reward
check_miner_outputs key_isvalid check_keys (output ∷ outputs) miner_reward =
    ensure (not (output.amount == 0)) output_zero_amount (
      ensure (not check_keys || key_isvalid (get_key output.target)) output_invalid_key (
        ensure (leb miner_reward (2 ^ 64 - 1 - output.amount)) outputs_amount_overflow (
          check_miner_outputs key_isvalid check_keys outputs
            ((miner_reward + output.amount) % 2 ^ 64))))

-- The one input of the base transaction.
unfoldable pub check_base_inputs : List TransactionInput → ℕ → Verdict (Unit {0})
check_base_inputs [] height = rejects input_wrong_count
check_base_inputs (coinbase_input block_index ∷ []) height =
    ensure (block_index == height) base_input_wrong_block_index (accepts tt)
check_base_inputs (key_input amount output_indexes key_image ∷ []) height =
    rejects input_unexpected_type
check_base_inputs (input ∷ other ∷ inputs) height = rejects input_wrong_count

-- `cumulative_fee`
unfoldable pub sum_fees : List Transaction → ℕ → Verdict ℕ
sum_fees [] cumulative_fee = accepts cumulative_fee
sum_fees (tx ∷ txs) cumulative_fee = elim (get_tx_fee tx) [
  | none ↦ rejects wrong_amount
  | some fee ↦ sum_fees txs ((cumulative_fee + fee) % 2 ^ 64)
]

unfoldable pub check_transactions : (ℕ → Bool) → Bool → List Transaction → Verdict (Unit {0})
check_transactions key_isvalid check_keys [] = accepts tt
check_transactions key_isvalid check_keys (tx ∷ txs) =
    elim (validate_semantic key_isvalid false tx check_keys) [
      | fails reason ↦ rejects (invalid_transaction reason)
      | passes fee ↦ check_transactions key_isvalid check_keys txs
    ]

-- `next_median_size` and `next_median_timestamp`, which is 0 where the window is not full.
unfoldable pub calculate_consensus_values : Currency → Headers → ℕ → BlockHeader → Option (ℕ × ℕ)
calculate_consensus_values c headers tip_height prev_info =
    let window = get_timestamp_check_window c ((tip_height + 1) % 2 ^ 32) in
    elim (get_tip_segment headers prev_info c.reward_blocks_window true) [
      | none ↦ none
      | some blocks ↦ elim (get_tip_segment headers prev_info window false) [
        | none ↦ none
        | some last ↦ some (
          median_value 32 (map (λ (h : BlockHeader). h.block_size) blocks),
          if leb window (length last)
              then median_value 32 (map (λ (h : BlockHeader). h.timestamp) last)
              else 0,
        )
      ]
    ]

-- The next difficulty after `prev_info`.
unfoldable pub difficulty_after : Currency → Headers → ℕ → BlockHeader → Option ℕ
difficulty_after c headers tip_height prev_info =
    let blocks_count =
      min prev_info.height (get_difficulty_blocks_count c ((tip_height + 1) % 2 ^ 32)) in
    elim (get_tip_segment headers prev_info blocks_count false) [
      | none ↦ none
      | some window ↦
          next_difficulty c prev_info.height (map (λ (h : BlockHeader). h.timestamp) window)
            (map (λ (h : BlockHeader). h.cumulative_difficulty) window)
    ]

-- What is not of this code: keys, hashes of transactions, the time, and the proof of work of a block
-- under a difficulty.
pub record Judges : Type 0 where
  pub key_isvalid : ℕ → Bool
  pub get_transaction_hash : Transaction → ℕ
  pub now : ℕ
  pub genesis_block_hash : ℕ
  pub check_proof_of_work : PreparedBlock → ℕ → Bool

module _ (c : Currency) (judges : Judges) where
  -- Sizes; the header with `size_median`, `effective_size_median`, `timestamp_median`, `block_size` and
  -- `transactions_cumulative_size`, which the code sets at the end.
  unfoldable pub check_sizes :
      Headers → ℕ → PreparedBlock → BlockHeader → BlockHeader → Verdict BlockHeader
  check_sizes headers tip_height pb info prev_info =
      let header = pb.block.header in
      ensure
        (length pb.block.transactions == length header.transaction_hashes
          && length pb.block.transactions == length pb.raw_transaction_sizes)
        wrong_transactions_count
        (and_check (or_exception (calculate_consensus_values c headers tip_height prev_info))
          (λ medians.
            let effective =
              max medians.0
                (block_granted_full_reward_zone_by_block_version c header.major_version) in
            and_check
              (check_raw_transactions judges.get_transaction_hash
                (max_transaction_allowed_size c effective) pb.block.transactions
                header.transaction_hashes pb.raw_transaction_sizes 0)
              (λ cumulative_size.
                let block_size = (pb.coinbase_tx_size + cumulative_size) % 2 ^ 32 in
                ensure (leb block_size (max_block_cumulative_size c info.height))
                  cumulative_block_size_too_big
                  (accepts (record info {
                    size_median = medians.0;
                    timestamp_median = medians.1;
                    effective_size_median = effective;
                    block_size = block_size;
                    transactions_cumulative_size = cumulative_size % 2 ^ 32;
                  })))))

  -- Version, parent block and time.
  unfoldable pub check_template : ℕ → PreparedBlock → BlockHeader → Verdict (Unit {0})
  check_template tip_height pb info =
      let header = pb.block.header in
      ensure (header.major_version == get_block_major_version_for_height c info.height)
        wrong_version
        (ensure (not (header.major_version == 2 && ltb 1 header.parent_block_major_version))
          parent_block_wrong_version
          (ensure (not (leb 2 header.major_version && ltb 2048 pb.parent_block_size))
            parent_block_size_too_big
            (ensure
              (leb header.timestamp
                ((judges.now + get_block_future_time_limit c ((tip_height + 1) % 2 ^ 32)) % 2 ^ 32))
              timestamp_too_far_in_future
              (ensure (leb info.timestamp_median header.timestamp) timestamp_too_far_in_past
                (accepts tt)))))

  -- The base transaction; `miner_reward`.
  unfoldable pub check_base_transaction : Bool → PreparedBlock → BlockHeader → Verdict ℕ
  check_base_transaction check_keys pb info =
      let base = pb.block.header.base_transaction in
      and_check (check_base_inputs base.inputs info.height) (λ _.
        ensure (base.unlock_time == (info.height + c.mined_money_unlock_window) % 2 ^ 32)
          wrong_transaction_unlock_time
          (check_miner_outputs judges.key_isvalid check_keys base.outputs 0))

  unfoldable pub check_difficulty : Headers → ℕ → BlockHeader → BlockHeader → Verdict BlockHeader
  check_difficulty headers tip_height info prev_info =
      and_check (or_exception (difficulty_after c headers tip_height prev_info)) (λ difficulty.
        ensure (not (difficulty == 0)) difficulty_overhead (
          accepts (record info {
            difficulty = difficulty;
            cumulative_difficulty = (prev_info.cumulative_difficulty + difficulty) % 2 ^ 64;
          })))

  -- Fees, reward and supply.
  unfoldable pub check_reward : PreparedBlock → BlockHeader → BlockHeader → ℕ → Verdict BlockHeader
  check_reward pb info prev_info miner_reward =
      let version = pb.block.header.major_version in
      let coins = prev_info.already_generated_coins in
      and_check (sum_fees pb.block.transactions 0) (λ cumulative_fee.
        let base = get_block_reward c version info.effective_size_median 0 coins 0 in
        let own =
          get_block_reward c version info.effective_size_median info.block_size coins
            cumulative_fee in
        ensure (miner_reward == own.reward) block_reward_mismatch (
          accepts (record info {
            base_reward = base.reward;
            reward = own.reward;
            already_generated_coins = (coins + own.emission_change) % 2 ^ 64;
            already_generated_transactions =
                (prev_info.already_generated_transactions + length pb.block.transactions + 1)
                % 2 ^ 64;
            total_fee_amount = cumulative_fee;
          })))

  -- The checkpoint of the height, or the proof of work where it is asked for.
  unfoldable pub check_work : Bool → PreparedBlock → BlockHeader → Verdict BlockHeader
  check_work check_pow pb info =
      if is_in_sw_checkpoint_zone c info.height
      then ensure (check_sw_checkpoint c judges.genesis_block_hash info.height info.hash).0
          checkpoint_block_hash_mismatch (accepts info)
      else ensure (not check_pow || judges.check_proof_of_work pb info.difficulty)
          proof_of_work_too_weak (accepts info)

  -- The header that is filled in, or the error.
  unfoldable pub check_standalone_consensus :
      Headers → ℕ → PreparedBlock → BlockHeader → BlockHeader → Bool → Verdict BlockHeader
  check_standalone_consensus headers tip_height pb info prev_info check_pow =
      let check_keys = not (is_in_sw_checkpoint_zone c info.height) in
      and_check (check_sizes headers tip_height pb info prev_info) (λ sized.
        and_check (check_template tip_height pb sized) (λ _.
          and_check (check_base_transaction check_keys pb sized) (λ miner_reward.
            and_check (check_difficulty headers tip_height sized prev_info) (λ weighed.
              and_check (check_reward pb weighed prev_info miner_reward) (λ paid.
                and_check (check_transactions judges.key_isvalid check_keys pb.block.transactions)
                  (λ _. check_work check_pow pb paid))))))
