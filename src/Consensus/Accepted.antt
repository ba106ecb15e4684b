-- ===== src/Consensus/Accepted.antt =====
-- What the stages of `check_standalone_consensus` after the sizes say of an accepted block.
use naza.Common.{ℕ, ◌+◌, ◌%◌, ◌^◌, ◌≤◌, ◌<◌, [], ◌∷◌, map, length, All}
use naza.Common.{◌≡◌, sym, arith}
use naza.Common.{some}
use naza.Common.{Bool, false, not, ◌&&◌, ltb, leb, ◌==◌}
use naza.Transaction.{coinbase_input, TransactionOutput}
use naza.Semantic.{passes, validate_semantic}
use naza.Currency.{
  Currency, get_block_future_time_limit, max_block_cumulative_size,
  get_block_major_version_for_height, get_block_reward,
}
use naza.Currency.Checkpoints.{is_in_sw_checkpoint_zone}
use naza.Block.{BlockHeader, PreparedBlock}
use naza.BlockChain.Ancestor.{Headers}
use naza.Consensus.{
  wrong_version, parent_block_wrong_version, parent_block_size_too_big, timestamp_too_far_in_future,
  timestamp_too_far_in_past, wrong_transaction_unlock_time, difficulty_overhead,
  block_reward_mismatch, accepts, or_exception, check_base_inputs, sum_fees, Judges, check_template,
  check_base_transaction, check_difficulty, check_reward, check_work, difficulty_after,
}
use naza.Consensus.Sound.{
  accepts_eq, and_check-accepts, ensure-accepts, total_amount, check_miner_outputs-total,
  check_base_inputs-one,
}
use naza.Consensus.Sized.{or_exception-accepts}

-- What the accepted header `h` of a block says, over the header `prev_info` of its parent.
pub record IsSound (c : Currency) (judges : Judges) (pb : PreparedBlock) (prev_info h : BlockHeader)
    : Type 0 where
  pub version : pb.block.header.major_version ≡ get_block_major_version_for_height c h.height
  pub time : h.timestamp_median ≤ pb.block.header.timestamp
  pub hashes :
      map judges.get_transaction_hash pb.block.transactions ≡ pb.block.header.transaction_hashes
  pub size : h.block_size ≤ max_block_cumulative_size c h.height
  pub base_inputs : pb.block.header.base_transaction.inputs ≡ coinbase_input h.height ∷ []
  pub base_unlock :
      pb.block.header.base_transaction.unlock_time
      ≡ (h.height + c.mined_money_unlock_window) % 2 ^ 32
  pub positive :
      All (λ (o : TransactionOutput). 0 < o.amount) pb.block.header.base_transaction.outputs
  pub paid : total_amount pb.block.header.base_transaction.outputs ≡ h.reward
  pub fees : sum_fees pb.block.transactions 0 ≡ accepts h.total_fee_amount
  pub reward :
      (get_block_reward c pb.block.header.major_version h.effective_size_median h.block_size
        prev_info.already_generated_coins h.total_fee_amount).reward
      ≡ h.reward
  pub supply :
      h.already_generated_coins
      ≡ (prev_info.already_generated_coins
          + (get_block_reward c pb.block.header.major_version h.effective_size_median h.block_size
              prev_info.already_generated_coins h.total_fee_amount).emission_change)
        % 2 ^ 64
  pub work : 0 < h.difficulty
  pub cumulative_work :
      h.cumulative_difficulty ≡ (prev_info.cumulative_difficulty + h.difficulty) % 2 ^ 64
  pub transactions :
      All
        (λ tx.
          (fee : ℕ) × (validate_semantic judges.key_isvalid false tx
              (not (is_in_sw_checkpoint_zone c h.height))
            ≡ passes fee))
        pb.block.transactions

module _ (c : Currency) (judges : Judges) where
  pub check_template-accepted :
      (tip_height : ℕ) (pb : PreparedBlock) (h : BlockHeader) {u : Unit {0}}
      → check_template c judges tip_height pb h ≡ accepts u
      → (pb.block.header.major_version ≡ get_block_major_version_for_height c h.height)
        × (h.timestamp_median ≤ pb.block.header.timestamp)
  unfolding check_template
  check_template-accepted tip_height pb h e =
      let header = pb.block.header in
      let (version, h1) =
        ensure-accepts (header.major_version == get_block_major_version_for_height c h.height)
          wrong_version _ e in
      let (parent, h2) =
        ensure-accepts (not (header.major_version == 2 && ltb 1 header.parent_block_major_version))
          parent_block_wrong_version _ h1 in
      let (parent_size, h3) =
        ensure-accepts (not (leb 2 header.major_version && ltb 2048 pb.parent_block_size))
          parent_block_size_too_big _ h2 in
      let (future, h4) =
        ensure-accepts
          (leb header.timestamp
            ((judges.now + get_block_future_time_limit c ((tip_height + 1) % 2 ^ 32)) % 2 ^ 32))
          timestamp_too_far_in_future _ h3 in
      let (past, h5) =
        ensure-accepts (leb h.timestamp_median header.timestamp) timestamp_too_far_in_past _ h4 in
      (ground (arith, version), ground (arith, past))

  pub check_base_transaction-accepted :
      (check_keys : Bool) (pb : PreparedBlock) (h : BlockHeader) {miner_reward : ℕ}
      → All (λ (o : TransactionOutput). o.amount < 2 ^ 64) pb.block.header.base_transaction.outputs
      → check_base_transaction c judges check_keys pb h ≡ accepts miner_reward
      → (pb.block.header.base_transaction.inputs ≡ coinbase_input h.height ∷ [])
        × (pb.block.header.base_transaction.unlock_time
            ≡ (h.height + c.mined_money_unlock_window) % 2 ^ 32)
        × (total_amount pb.block.header.base_transaction.outputs ≡ miner_reward)
        × All (λ (o : TransactionOutput). 0 < o.amount) pb.block.header.base_transaction.outputs
  unfolding check_base_transaction
  check_base_transaction-accepted check_keys pb h words e =
      let base = pb.block.header.base_transaction in
      let (u, one, h1) = and_check-accepts (check_base_inputs base.inputs h.height) _ e in
      let (unlock, h2) =
        ensure-accepts (base.unlock_time == (h.height + c.mined_money_unlock_window) % 2 ^ 32)
          wrong_transaction_unlock_time _ h1 in
      let (total, positive) =
        check_miner_outputs-total judges.key_isvalid check_keys base.outputs 0 words h2 in
      (
        check_base_inputs-one base.inputs h.height one,
        ground (arith, unlock),
        omega (arith, total),
        positive,
      )

  pub check_difficulty-accepted :
      (headers : Headers) (tip_height : ℕ) (info prev_info h : BlockHeader)
      → check_difficulty c judges headers tip_height info prev_info ≡ accepts h
      → (difficulty : ℕ) × (h ≡ record info {
        difficulty = difficulty;
        cumulative_difficulty = (prev_info.cumulative_difficulty + difficulty) % 2 ^ 64;
      })
        × (0 < difficulty)
        × (difficulty_after c headers tip_height prev_info ≡ some difficulty)
  unfolding check_difficulty
  check_difficulty-accepted headers tip_height info prev_info h e =
      let (difficulty, found, h1) =
        and_check-accepts (or_exception (difficulty_after c headers tip_height prev_info)) _ e in
      let (nonzero, h2) = ensure-accepts (not (difficulty == 0)) difficulty_overhead _ h1 in
      (difficulty, sym (accepts_eq h2), ground (arith, nonzero), or_exception-accepts _ found)

  pub check_work-accepted :
      (check_pow : Bool) (pb : PreparedBlock) (info h : BlockHeader)
      → check_work c judges check_pow pb info ≡ accepts h
      → h ≡ info
  unfolding check_work
  check_work-accepted check_pow pb info h e = grind (arith, e)

  pub check_reward-accepted :
      (pb : PreparedBlock) (info prev_info : BlockHeader) (miner_reward : ℕ) (h : BlockHeader)
      → check_reward c judges pb info prev_info miner_reward ≡ accepts h
      → (fee : ℕ) × (sum_fees pb.block.transactions 0 ≡ accepts fee)
        × (miner_reward
            ≡ (get_block_reward c pb.block.header.major_version info.effective_size_median
                info.block_size prev_info.already_generated_coins fee).reward)
        × (h ≡ record info {
          base_reward =
              (get_block_reward c pb.block.header.major_version info.effective_size_median 0
                prev_info.already_generated_coins 0).reward;
          reward =
              (get_block_reward c pb.block.header.major_version info.effective_size_median
                info.block_size prev_info.already_generated_coins fee).reward;
          already_generated_coins =
              (prev_info.already_generated_coins
                + (get_block_reward c pb.block.header.major_version info.effective_size_median
                    info.block_size prev_info.already_generated_coins fee).emission_change)
              % 2 ^ 64;
          already_generated_transactions =
              (prev_info.already_generated_transactions + length pb.block.transactions + 1)
              % 2 ^ 64;
          total_fee_amount = fee;
        })
  unfolding check_reward
  check_reward-accepted pb info prev_info miner_reward h e =
      let (fee, summed, h1) = and_check-accepts (sum_fees pb.block.transactions 0) _ e in
      let own =
        get_block_reward c pb.block.header.major_version info.effective_size_median info.block_size
          prev_info.already_generated_coins fee in
      let (paid, h2) = ensure-accepts (miner_reward == own.reward) block_reward_mismatch _ h1 in
      (fee, summed, ground (arith, paid), sym (accepts_eq h2))
