-- ===== src/BlockChain/AddBlock.antt =====
-- `BlockChain::add_block`. `check_standalone_consensus` of the derived class is a parameter here, which
-- answers the header that it filled in, or `none` where the code returns the text of an error. The
-- commit of the database after every so many blocks is left out.
use naza.Common.{◌+◌, ◌-◌, ◌%◌, ◌^◌, Option, none, some}
use naza.Common.{Bool, true, false, not, ◌&&◌, ltb, ◌==◌, if◌then◌else◌}
use naza.Common.Options.{◌>>=◌, ◌>>◌, guard}
use naza.Block.{BlockHeader, PreparedBlock}
use naza.State.{put, is_some}
use naza.State.Redo.{redo_throws, redo_fails, redo_passes}
use naza.BlockChain.{IBlockState, BlockChain, push_chain}
use naza.BlockChain.Reorganize.{reorganize_blocks}
use naza.BlockChain.Children.{check_children_counter, modify_children_counter, minus_one}

pub data BroadcastAction : Type 0 where
  broadcast_all : BroadcastAction
  nothing : BroadcastAction
  ban : BroadcastAction

-- `api::BlockHeader()`
abbrev pub empty_header : BlockHeader
empty_header = record {
  major_version = 0;
  minor_version = 0;
  timestamp = 0;
  previous_block_hash = 0;
  nonce = 0;
  height = 0;
  hash = 0;
  reward = 0;
  cumulative_difficulty = 0;
  difficulty = 0;
  base_reward = 0;
  block_size = 0;
  transactions_cumulative_size = 0;
  already_generated_coins = 0;
  already_generated_transactions = 0;
  size_median = 0;
  effective_size_median = 0;
  timestamp_median = 0;
  total_fee_amount = 0;
}

abbrev pub header_or : Option BlockHeader → BlockHeader → BlockHeader
header_or none other = other
header_or (some header) other = header

-- The fields that `add_block` copies from the block before it is checked.
unfoldable pub fill_header : BlockHeader → PreparedBlock → BlockHeader → BlockHeader
fill_header info pb prev_info = record info {
  major_version = pb.block.header.major_version;
  minor_version = pb.block.header.minor_version;
  timestamp = pb.block.header.timestamp;
  previous_block_hash = pb.block.header.previous_block_hash;
  nonce = pb.block.header.nonce;
  hash = pb.bid;
  height = (prev_info.height + 1) % 2 ^ 32;
}

abbrev pub Check : Type 0 → Type 0
Check S = BlockChain S → PreparedBlock → BlockHeader → BlockHeader → Option BlockHeader

module _ {S : Type 0} where
  -- `store_block` where there is none, and `store_header`, which throws where there is one.
  unfoldable pub store : BlockChain S → PreparedBlock → BlockHeader → Option (BlockChain S)
  store bc pb info =
      guard (not (is_some (bc.headers pb.bid)))
      >> some (record bc {
        blocks =
            if is_some (bc.blocks pb.bid) then bc.blocks else put bc.blocks pb.bid (some pb.block);
        headers = put bc.headers pb.bid (some info);
      })

  -- The new block is a tip: its counter, which was not stored, goes from 1 to 0.
  unfoldable pub make_tip : BlockChain S → PreparedBlock → BlockHeader → Option (BlockChain S)
  make_tip bc pb info =
      check_children_counter bc info.cumulative_difficulty pb.bid 1
      >> some (modify_children_counter bc info.cumulative_difficulty pb.bid minus_one)

  module _ (ops : IBlockState S) where
    -- The genesis block is redone at once, and any other is a child of its parent.
    unfoldable pub attach :
        BlockChain S → PreparedBlock → BlockHeader → BlockHeader → Option (BlockChain S)
    attach bc pb info prev_info = elim (pb.bid == bc.genesis_bid) [
      | true ↦ elim (ops.redo_block bc.state pb.bid pb.block info) [
        | redo_throws ↦ none
        | redo_fails error conflict_height ↦ none
        | redo_passes state ↦ push_chain bc info state
      ]
      | false ↦ some (
          modify_children_counter bc prev_info.cumulative_difficulty
            pb.block.header.previous_block_hash 1)
    ]

    -- `BroadcastAction::BAN`, as `false`, only for a block on the tip that cannot be redone.
    unfoldable pub advance :
        BlockChain S → PreparedBlock → BlockHeader → Option (Bool × BlockChain S)
    advance bc pb info = elim (ltb bc.tip_cumulative_difficulty info.cumulative_difficulty) [
      | false ↦ some (true, bc)
      | true ↦ elim (bc.tip_bid == pb.block.header.previous_block_hash) [
        | true ↦ elim (ops.redo_block bc.state pb.bid pb.block info) [
          | redo_throws ↦ none
          | redo_fails error conflict_height ↦ some (false, bc)
          | redo_passes state ↦ push_chain bc info state >>= λ bd. some (true, bd)
        ]
        | false ↦ reorganize_blocks ops bc pb.bid pb info >>= λ r. some (true, r.1)
      ]
    ]

    abbrev pub action_of : Bool → BlockChain S → BlockHeader → BroadcastAction
    action_of accepted bc info =
        if not accepted then ban else if info.hash == bc.tip_bid then broadcast_all else nothing

    unfoldable pub add_checked :
        BlockChain S
        → PreparedBlock
        → BlockHeader
        → BlockHeader
        → Option (BroadcastAction × BlockChain S)
    add_checked bc pb info prev_info = store bc pb info >>= λ stored.
        attach stored pb info prev_info >>= λ attached. make_tip attached pb info >>= λ tipped.
        advance tipped pb info >>= λ r. some (action_of r.0 r.1 info, r.1)

  module _ (ops : IBlockState S) (check : Check S) where
    unfoldable pub add_block :
        BlockChain S → PreparedBlock → Option (BroadcastAction × BlockChain S)
    add_block bc pb = elim (is_some (bc.blocks pb.bid) && is_some (bc.headers pb.bid)) [
      | true ↦ some (nothing, bc)
      | false ↦
          elim (not (pb.bid == bc.genesis_bid)
            && not (is_some (bc.headers pb.block.header.previous_block_hash))) [
              | true ↦ some (nothing, bc)
              | false ↦
                  let prev_info =
                    if pb.bid == bc.genesis_bid
                    then record empty_header { height = 2 ^ 32 - 1 }
                    else header_or (bc.headers pb.block.header.previous_block_hash)
                        (record empty_header { height = 2 ^ 32 - 1 }) in
                  let info =
                    fill_header (header_or (bc.headers pb.bid) empty_header) pb prev_info in
                  elim (check bc pb info prev_info) [
                    | none ↦ some (ban, bc)
                    | some filled ↦ add_checked ops bc pb filled prev_info
                  ]
            ]
    ]
