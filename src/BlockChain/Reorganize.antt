-- ===== src/BlockChain/Reorganize.antt =====
-- `BlockChain::reorganize_blocks`: the main chain is undone to the common block, and the blocks of the
-- other branch are redone. `on_reorganization`, which refills the memory pool, is left out.
use mathlib.Core.List.{reverse}
use naza.Common.{ℕ, zero, suc, List, [], ◌∷◌, Option, none, some}
use naza.Common.{Bool, true, false, ◌&&◌, ◌==◌, if◌then◌else◌}
use naza.Common.Options.{◌>>=◌, ◌>>◌, guard}
use naza.Block.{Block, BlockHeader, PreparedBlock}
use naza.State.{is_some}
use naza.State.Redo.{redo_throws, redo_fails, redo_passes}
use naza.BlockChain.{IBlockState, BlockChain, push_chain, pop_chain}
use naza.BlockChain.Ancestor.{get_common_block}

abbrev pub all_stored : (ℕ → Option Block) → List ℕ → Bool
all_stored blocks [] = true
all_stored blocks (chha ∷ chain) = is_some (blocks chha) && all_stored blocks chain

module _ {S : Type 0} where
  -- The block and the header to redo: those of the call for the block that it was called with.
  unfoldable pub block_of : BlockChain S → PreparedBlock → ℕ → Option Block
  block_of bc recent_pb chha =
      if chha == recent_pb.bid then some recent_pb.block else bc.blocks chha

  unfoldable pub header_of : BlockChain S → PreparedBlock → BlockHeader → ℕ → Option BlockHeader
  header_of bc recent_pb recent_info chha =
      if chha == recent_pb.bid then some recent_info else bc.headers chha

module _ {S : Type 0} (ops : IBlockState S) where
  -- One round of `while (get_tip_bid() != common)`.
  unfoldable pub undo_tip : BlockChain S → Option (BlockChain S)
  undo_tip bc = bc.blocks bc.tip_bid >>= λ block.
      ops.undo_block bc.state bc.tip_bid block bc.tip_height >>= λ state.
      pop_chain bc block.header.previous_block_hash state

  -- The loop, with a round for every height below the tip.
  unfoldable pub undo_loop : ℕ → BlockChain S → ℕ → Option (BlockChain S)
  undo_loop zero bc common = if bc.tip_bid == common then some bc else none
  undo_loop (suc fuel) bc common = elim (bc.tip_bid == common) [
    | true ↦ some bc
    | false ↦ undo_tip bc >>= λ bd. undo_loop fuel bd common
  ]

  -- `while (!chain2.empty())`, over `chain2` from its back; `false` where a block could not be redone.
  unfoldable pub redo_loop :
      PreparedBlock → BlockHeader → List ℕ → BlockChain S → Option (Bool × BlockChain S)
  redo_loop recent_pb recent_info [] bc = some (true, bc)
  redo_loop recent_pb recent_info (chha ∷ chain2) bc = elim (block_of bc recent_pb chha) [
    | none ↦ some (false, bc)
    | some block ↦
        guard (block.header.previous_block_hash == bc.tip_bid)
        >> header_of bc recent_pb recent_info chha
        >>= λ info. elim (ops.redo_block bc.state chha block info) [
          | redo_throws ↦ none
          | redo_fails error conflict_height ↦ some (false, bc)
          | redo_passes state ↦
              push_chain bc info state >>= λ bd. redo_loop recent_pb recent_info chain2 bd
        ]
  ]

  unfoldable pub reorganize_blocks :
      BlockChain S → ℕ → PreparedBlock → BlockHeader → Option (Bool × BlockChain S)
  reorganize_blocks bc switch_to_chain recent_pb recent_info =
      get_common_block bc.headers bc.tip_bid switch_to_chain >>= λ c.
      elim (all_stored bc.blocks c.chain2) [
        | false ↦ some (false, bc)
        | true ↦ undo_loop bc.tip_height bc c.common >>= λ bd.
            redo_loop recent_pb recent_info (reverse c.chain2) bd
      ]
