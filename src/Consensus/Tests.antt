-- ===== src/Consensus/Tests.antt =====
-- The theorem about `check_standalone_consensus`, at the first block above a genesis block.
use naza.Common.{ℕ, ◌+◌, [], ◌∷◌, none, some}
use naza.Common.{true, false}
use naza.Transaction.{coinbase_input, key_output, Transaction}
use naza.Currency.{Currency, make_currency}
use naza.Currency
use naza.Block.{BlockHeader, PreparedBlock}
use naza.State.{put}
use naza.BlockChain.Ancestor.{Headers}
use naza.BlockChain.AddBlock.{empty_header, fill_header}
use naza.Consensus.{Judges}

abbrev judges : Judges
judges = record {
  key_isvalid = λ k. true;
  get_transaction_hash = λ tx. 7;
  now = 1000;
  genesis_block_hash = 1;
  check_proof_of_work = λ pb difficulty. true;
}

abbrev genesis : BlockHeader
genesis = record empty_header {
  hash = 1;
  block_size = 100;
  cumulative_difficulty = 1;
  difficulty = 1;
  reward = 50;
  already_generated_coins = 50;
}

abbrev genesis_headers : Headers
genesis_headers = put (λ b. none) 1 (some genesis)

abbrev miner_transaction : ℕ → Transaction
miner_transaction reward = record {
  version = 1;
  unlock_time = 1 + (make_currency false).mined_money_unlock_window;
  inputs = coinbase_input 1 ∷ [];
  outputs = record { amount = reward; target = key_output 3 } ∷ [];
  extra = [];
  signatures = [];
}

abbrev first : ℕ → PreparedBlock
first reward = record {
  block = record {
    header = record {
      major_version = 1;
      minor_version = 0;
      nonce = 0;
      timestamp = 60;
      previous_block_hash = 1;
      parent_block_major_version = 0;
      base_transaction = miner_transaction reward;
      transaction_hashes = [];
    };
    transactions = [];
  };
  raw_transaction_sizes = [];
  bid = 2;
  coinbase_tx_size = 200;
  parent_block_size = 0;
  long_block_hash = 0;
}

abbrev start : ℕ → BlockHeader
start reward = fill_header empty_header (first reward) genesis

abbrev reward : ℕ
reward = 281474976710655

abbrev filled : BlockHeader
filled = record (start reward) {
  reward = reward;
  cumulative_difficulty = 2;
  difficulty = 1;
  base_reward = reward;
  block_size = 200;
  already_generated_coins = reward + 50;
  already_generated_transactions = 1;
  size_median = 100;
  effective_size_median = 10000;
}
