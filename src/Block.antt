-- ===== src/Block.antt =====
-- Blocks: the templates of CryptoNote.hpp, the headers of rpc_api.hpp and the prepared blocks of
-- Core/BlockChain.hpp. Hashes are numbers; of the parent block only the version is kept.
use naza.Common.{ℕ, List}
use naza.Transaction.{Transaction}

pub record BlockTemplate : Type 0 where
  pub major_version : ℕ
  pub minor_version : ℕ
  pub nonce : ℕ
  pub timestamp : ℕ
  pub previous_block_hash : ℕ
  pub parent_block_major_version : ℕ
  pub base_transaction : Transaction
  pub transaction_hashes : List ℕ

pub record Block : Type 0 where
  pub header : BlockTemplate
  pub transactions : List Transaction

-- `api::BlockHeader`
pub record BlockHeader : Type 0 where
  pub major_version : ℕ
  pub minor_version : ℕ
  pub timestamp : ℕ
  pub previous_block_hash : ℕ
  pub nonce : ℕ
  pub height : ℕ
  pub hash : ℕ
  pub reward : ℕ
  pub cumulative_difficulty : ℕ
  pub difficulty : ℕ
  pub base_reward : ℕ
  pub block_size : ℕ
  pub transactions_cumulative_size : ℕ
  pub already_generated_coins : ℕ
  pub already_generated_transactions : ℕ
  pub size_median : ℕ
  pub effective_size_median : ℕ
  pub timestamp_median : ℕ
  pub total_fee_amount : ℕ

-- `raw_transaction_sizes` are the sizes of `raw_block.transactions`.
pub record PreparedBlock : Type 0 where
  pub block : Block
  pub raw_transaction_sizes : List ℕ
  pub bid : ℕ
  pub coinbase_tx_size : ℕ
  pub parent_block_size : ℕ
  pub long_block_hash : ℕ
