-- ===== src/BlockChain/Tests.antt =====
-- The theorems about the tree of blocks, on a genesis block and two blocks above it.
use naza.Common.{All, get_elem?}
use naza.BlockChain.Locator.{get_sparse_chain, back}
use naza.BlockChain.Sparse.{InChain, get_sparse_chain_lem}
use naza.Common.{ℕ, ◌+◌, ◌<◌}
use naza.Common.{◌≡◌, refl, sym, ap, ◌∙◌, ◌≢◌, inl, inr, arith}
use naza.Common.{true, false, ◌&&◌, ◌==◌}
use naza.Common.{none, some, List, [], ◌∷◌}
use naza.Common.{length}
use mathlib.Core.List.{reverse}
use naza.Block.{Block, BlockHeader, PreparedBlock}
use naza.State.{put}
use naza.BlockChain.{IBlockState, BlockChain}
use naza.BlockChain.Ancestor.{CommonBlock, IsCommon, get_common_block}
use naza.BlockChain.Ancestor.Common.{get_common_block-IsCommon}
use naza.BlockChain.Reorganize.{reorganize_blocks}
use naza.BlockChain.Valid.{IsValid}
use naza.State.Store.{put_ne}
use naza.BlockChain.AddBlock.{fill_header, empty_header}
use naza.BlockChain.StoreBlock.{with_block, with_block-IsValid, put-cases, none-some}
use naza.Transaction.{Transaction, coinbase_input, key_output}
use naza.BlockChain.Derived.{chain_state, IsFitted, reorganize_blocks-Switched}
use naza.Currency.{make_currency}
use naza.Currency.Checkpoints.{
  is_in_sw_checkpoint_zone, check_sw_checkpoint, next_difficulty, next_difficulty_v2,
}
use naza.State.{BlockChainState, is_some}
use naza.State.Store.{IsFilled}
use naza.State.Apply.{apply, apply_keyimages, apply_amounts, apply_spent}
use naza.State.Redo.{
  redo_passes, redo_transactions, redo_transaction_get_error, redo_inputs, redo_outputs,
  give_keyimages, give_amounts, give_spent, apply_to_delta,
}
use naza.State.Redo.Whole.{check_sigs, ring_work, redo_block}
use naza.RingChecker.{start_work_get_error, ring_transactions}
use naza.Consensus.{
  Judges, check_standalone_consensus, check_sizes, check_template, check_base_transaction,
  check_difficulty, check_reward, check_work, check_raw_transactions, check_miner_outputs,
  check_base_inputs, sum_fees, check_transactions, calculate_consensus_values, difficulty_after,
}
use naza.Currency
use naza.BlockChain.Segment.{segment_loop}
use naza.Median.{median_value}
use naza.Currency.NextDifficulty.{next_difficulty_v1}
use naza.Consensus.Standalone.{standalone_check}
use naza.BlockChain.Segment.{get_tip_segment, get_tip_segment_lem, Descent}
use naza.BlockChain.Locator.{get_sync_headers_chain}
use naza.BlockChain.Sync.{IsSync, get_sync_headers_chain-IsSync}
use naza.BlockChain.Redo.{Switched}

-- The state of the chain on the test network, where every ring signature passes.
abbrev history : IBlockState BlockChainState
history = chain_state (make_currency true) (λ hash image keys signature. (true, false)) (λ tx. 0)

-- The state after a genesis block without outputs.
abbrev nothing_yet : BlockChainState
nothing_yet = record {
  keyimages = λ k. none;
  amount_outputs = λ a i. none;
  next_gi_for_amount = λ a. 0;
}

nothing_yet-IsFilled : IsFilled nothing_yet
nothing_yet-IsFilled = record { filled = λ a i. ground arith; word = λ a. omega arith }

abbrev no_transaction : Transaction
no_transaction = record {
  version = 1;
  unlock_time = 0;
  inputs = [];
  outputs = [];
  extra = [];
  signatures = [];
}

abbrev block_on : ℕ → Block
block_on parent = record {
  header = record {
    major_version = 1;
    minor_version = 0;
    nonce = 0;
    timestamp = 0;
    previous_block_hash = parent;
    parent_block_major_version = 0;
    base_transaction = no_transaction;
    transaction_hashes = [];
  };
  transactions = [];
}

abbrev prepared : ℕ → ℕ → PreparedBlock
prepared bid parent = record {
  block = block_on parent;
  raw_transaction_sizes = [];
  bid = bid;
  coinbase_tx_size = 0;
  parent_block_size = 0;
  long_block_hash = 0;
}

abbrev header_at : ℕ → ℕ → ℕ → ℕ → BlockHeader
header_at bid parent height cd = record empty_header {
  hash = bid;
  previous_block_hash = parent;
  height = height;
  cumulative_difficulty = cd;
}

abbrev genesis_chain : BlockChain BlockChainState
genesis_chain = record {
  genesis_bid = 1;
  headers = put (λ b. none) 1 (some (header_at 1 0 0 5));
  blocks = put (λ b. none) 1 (some (block_on 0));
  chain = put (λ n. none) 0 (some 1);
  children = put (λ b. none) 1 (some 0);
  cd_tips = λ cd b. (cd == 5) && (b == 1);
  tip_bid = 1;
  tip_height = 0;
  tip_cumulative_difficulty = 5;
  state = nothing_yet;
}

only {ℓ} :
    {A : Type ℓ} (k : ℕ) (v : A) (x : ℕ) (a : A)
    → put (λ b. none) k (some v) x ≡ some a
    → (x ≡ k) × (v ≡ a)
only k v x a e = elim (put-cases (λ b. none) k v x a e) [
  | inl found ↦ found
  | inr missing ↦ absurd (none-some missing)
]

genesis_chain-IsValid : IsValid history nothing_yet genesis_chain
genesis_chain-IsValid = record {
  tree = record {
    parent = λ b h e pos.
        absurd
          (omega (arith, ap (λ (g : BlockHeader). g.height) (only 1 (header_at 1 0 0 5) b h e).1));
    genesis = λ b h e low. (only 1 (header_at 1 0 0 5) b h e).0;
  };
  hashed = λ b h e.
      let (at, is) = only 1 (header_at 1 0 0 5) b h e in
      (
        omega (arith, ap (λ (g : BlockHeader). g.hash) is),
        omega (arith, ap (λ (g : BlockHeader). g.height) is),
      );
  parented = λ b h k e ek.
      ap (λ (j : Block). j.header.previous_block_hash) (sym (only 1 (block_on 0) b k ek).1)
      ∙ ap (λ (g : BlockHeader). g.previous_block_hash) (only 1 (header_at 1 0 0 5) b h e).1;
  tip_header = header_at 1 0 0 5;
  tip_stored = refl;
  tip_level = refl;
  tip_difficulty = refl;
  above = λ n gt. put_ne (λ m. none) 0 (some 1) n (nonzero n gt);
  replay = (refl, refl);
}
  where
    nonzero : (n : ℕ) → 0 < n → n ≢ 0
    nonzero n gt e = omega arith

abbrev judges : Judges
judges = record {
  key_isvalid = λ k. true;
  get_transaction_hash = λ tx. 7;
  now = 1000;
  genesis_block_hash = 1;
  check_proof_of_work = λ pb difficulty. true;
}

-- A block that pays its miner, which the checks accept.
abbrev paying : PreparedBlock
paying = record {
  block = record {
    header = record {
      major_version = 2;
      minor_version = 0;
      nonce = 0;
      timestamp = 60;
      previous_block_hash = 1;
      parent_block_major_version = 0;
      base_transaction = record {
        version = 1;
        unlock_time = 1 + (make_currency true).mined_money_unlock_window;
        inputs = coinbase_input 1 ∷ [];
        outputs = record { amount = 281474976710655; target = key_output 3 } ∷ [];
        extra = [];
        signatures = [];
      };
      transaction_hashes = [];
    };
    transactions = [];
  };
  raw_transaction_sizes = [];
  bid = 2;
  coinbase_tx_size = 200;
  parent_block_size = 0;
  long_block_hash = 0;
}

paying_accepted :
    is_some (
      standalone_check
        (make_currency true)
        judges
        genesis_chain
        paying
        (fill_header empty_header paying (header_at 1 0 0 5))
        (header_at 1 0 0 5))
    ≡ true
unfolding check_standalone_consensus check_sizes check_template check_base_transaction
    check_difficulty check_reward check_work check_raw_transactions check_miner_outputs
    check_base_inputs sum_fees check_transactions calculate_consensus_values difficulty_after
    get_tip_segment segment_loop median_value fill_header is_in_sw_checkpoint_zone
    check_sw_checkpoint next_difficulty next_difficulty_v1 next_difficulty_v2
    Currency.get_block_reward Currency.calc_base_reward Currency.get_penalized_amount
    Currency.block_granted_full_reward_zone_by_block_version Currency.max_transaction_allowed_size
    Currency.max_block_cumulative_size Currency.get_block_major_version_for_height
    Currency.get_block_future_time_limit Currency.get_timestamp_check_window
    Currency.get_difficulty_blocks_count
paying_accepted = refl

-- The blocks 2 and 3 are stored on the genesis block.
abbrev second : BlockChain BlockChainState
second = with_block genesis_chain (prepared 2 1) (header_at 2 1 1 10)

abbrev third : BlockChain BlockChainState
third = with_block second (prepared 3 1) (header_at 3 1 1 20)

third-IsValid : IsValid history nothing_yet third
third-IsValid =
    with_block-IsValid history nothing_yet second (prepared 3 1) (header_at 3 1 1 20)
      (header_at 1 0 0 5)
      (with_block-IsValid history nothing_yet genesis_chain (prepared 2 1) (header_at 2 1 1 10)
        (header_at 1 0 0 5) genesis_chain-IsValid refl refl
        (record { hash = refl; previous = refl; parent = refl; height = refl; word = omega arith }))
      refl refl
      (record { hash = refl; previous = refl; parent = refl; height = refl; word = omega arith })

-- The main chain goes to the block 2, and the block 3 is on a side branch.
abbrev forked : BlockChain BlockChainState
forked = record third {
  chain = put third.chain 1 (some 2);
  tip_bid = 2;
  tip_height = 1;
  tip_cumulative_difficulty = 10;
  state = nothing_yet;
}

block_on_run :
    history.redo_block nothing_yet 2 (block_on 1) (header_at 2 1 1 10) ≡ redo_passes nothing_yet
unfolding redo_block ring_work check_sigs is_in_sw_checkpoint_zone start_work_get_error
    ring_transactions redo_transactions redo_transaction_get_error redo_inputs redo_outputs
    give_keyimages give_amounts give_spent apply_to_delta apply apply_keyimages apply_amounts
    apply_spent
block_on_run = refl

forked-IsValid : IsValid history nothing_yet forked
forked-IsValid =
    let v = third-IsValid in
    record {
      tree = v.tree;
      hashed = v.hashed;
      parented = v.parented;
      tip_header = header_at 2 1 1 10;
      tip_stored = refl;
      tip_level = refl;
      tip_difficulty = refl;
      above = λ n gt. put_ne third.chain 1 (some 2) n (not_one n gt) ∙ v.above n (lower n gt);
      replay = (
        refl,
        block_on 1,
        refl,
        header_at 2 1 1 10,
        refl,
        refl,
        nothing_yet,
        block_on_run,
        (refl, refl),
      );
    }
  where
    not_one : (n : ℕ) → 1 < n → n ≢ 1
    not_one n gt e = omega arith

    lower : (n : ℕ) → 1 < n → 0 < n
    lower n gt = omega arith

get_common_block-IsCommon_example :
    (c : CommonBlock) × (get_common_block forked.headers 2 3 ≡ some c)
    × IsCommon forked.headers 2 3 c
get_common_block-IsCommon_example =
    get_common_block-IsCommon forked.headers 1 forked-IsValid.tree 2 3 (header_at 2 1 1 10)
      (header_at 3 1 1 20) refl refl

forked-IsFitted :
    IsFitted
      (make_currency true)
      (λ hash image keys signature. (true, false))
      (λ tx. 0)
      nothing_yet
      forked
forked-IsFitted = (
  refl,
  block_on 1,
  refl,
  header_at 2 1 1 10,
  refl,
  refl,
  nothing_yet,
  block_on_run,
  (λ a. ground arith),
  tt,
  (refl, refl),
)

reorganize_blocks-Switched_example :
    Switched history nothing_yet forked 3
      (reorganize_blocks history forked 3 (prepared 3 1) (header_at 3 1 1 20))
reorganize_blocks-Switched_example =
    reorganize_blocks-Switched (make_currency true) (λ hash image keys signature. (true, false))
      (λ tx. 0) nothing_yet forked 3 (header_at 3 1 1 20) (prepared 3 1) (header_at 3 1 1 20)
      nothing_yet-IsFilled forked-IsFitted forked-IsValid refl refl refl

get_tip_segment_lem_example :
    (r : List BlockHeader) × (get_tip_segment forked.headers (header_at 3 1 1 20) 2 true
      ≡ some (reverse r))
    × Descent forked.headers (header_at 3 1 1 20) r
    × (length r ≡ 2)
get_tip_segment_lem_example =
    get_tip_segment_lem forked.headers 1 forked-IsValid.tree 3 2 (header_at 3 1 1 20) true refl
      (omega arith)

get_sync_headers_chain-IsSync_example :
    (start : ℕ) × (result : List ℕ) × (get_sync_headers_chain forked (9 ∷ 3 ∷ 1 ∷ []) 5
      ≡ some (start, result))
    × IsSync history nothing_yet forked (9 ∷ 3 ∷ 1 ∷ []) 5 start result
get_sync_headers_chain-IsSync_example =
    get_sync_headers_chain-IsSync history nothing_yet forked (9 ∷ 3 ∷ 1 ∷ []) 5 forked-IsValid

get_sparse_chain_lem_example :
    (path : List ℕ) × (get_sparse_chain forked ≡ some path)
    × (get_elem? path 0 ≡ some 2)
    × (back 1 path ≡ 1)
    × All (InChain history nothing_yet forked) path
get_sparse_chain_lem_example =
    get_sparse_chain_lem history nothing_yet forked forked-IsValid (omega arith)
