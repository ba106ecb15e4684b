-- ===== src/BlockChain/Derived.antt =====
-- `BlockChain` over Core/BlockChainState.cpp: the tree of blocks with the chain's own state, its `redo_block`
-- and `undo_block`, and `check_standalone_consensus`.
use naza.Common.{ℕ, zero, suc}
use naza.Common.{◌≡◌, sym, ap, ◌∙◌}
use naza.Common.{some}
use mathlib.Core.Path.{subst}
use naza.Transaction.{Transaction}
use naza.Currency.{Currency}
use naza.Block.{Block, BlockHeader, PreparedBlock}
use naza.State.{BlockChainState}
use naza.State.Store.{IsFilled}
use naza.State.Apply.{undo_block}
use naza.State.Redo.{RingCheck, redo_passes, and_redo}
use naza.State.Redo.DoubleSpend.{and_redo-passes, passes_eq}
use naza.State.Redo.Whole.{redo_block}
use naza.State.Redo.Inverse.{
  block_transactions, HasRoom, SpendsOnce, redo_block-after_block, undo_block-redo_block,
}
use naza.BlockChain.{IBlockState, BlockChain}
use naza.BlockChain.Valid.{IsValid, Undoable}
use naza.BlockChain.Redo.{Switched}
use naza.BlockChain.Reorganize.{reorganize_blocks}
use naza.BlockChain.Switch.{reorganize_blocks-IsValid}

module _ (currency : Currency) (check_ring_signature : RingCheck)
    (prefix_hash : Transaction → ℕ) where
  -- The overrides of the derived class.
  abbrev pub chain_state : IBlockState BlockChainState
  chain_state = record {
    redo_block = λ s b k h.
        and_redo (redo_block currency check_ring_signature prefix_hash s k h)
          (λ r. redo_passes r.0);
    undo_block = λ s b k height. undo_block s k.header.base_transaction k.transactions;
  }

  module _ (genesis_state : BlockChainState) where
    -- The chain up to a height ends in `b`, redoing its blocks ends in `s`, and each of them fitted the
    -- state it was redone from: there were indices for its outputs, and its rings of one member
    -- named outputs that were not spent, none of them twice.
    abbrev pub Fitted : BlockChain BlockChainState → ℕ → ℕ → BlockChainState → Type 0
    Fitted bc zero b s = (bc.chain 0 ≡ some b) × (s ≡ genesis_state)
    Fitted bc (suc n) b s =
        (bc.chain (suc n) ≡ some b)
        × (k : Block) × (bc.blocks b ≡ some k)
        × (h : BlockHeader) × (bc.headers b ≡ some h)
        × (h.height ≡ suc n)
        × (r : BlockChainState) × (chain_state.redo_block r b k h ≡ redo_passes s)
        × HasRoom r (block_transactions k)
        × SpendsOnce r (block_transactions k)
        × Fitted bc n h.previous_block_hash r

    abbrev pub IsFitted : BlockChain BlockChainState → Type 0
    IsFitted bc = Fitted bc bc.tip_height bc.tip_bid bc.state

    -- Such a chain can be undone.
    Fitted-Undoable :
        (bc : BlockChain BlockChainState) (n b : ℕ) (s : BlockChainState)
        → IsFilled genesis_state
        → Fitted bc n b s
        → IsFilled s × Undoable chain_state genesis_state bc n b s
    Fitted-Undoable bc zero b s f (e, start) = (subst IsFilled (sym start) f, (e, start))
    Fitted-Undoable bc (suc n) b s f (e, k, ek, h, eh, level, r, redone, room, once, rest) =
        let (g, below) = Fitted-Undoable bc n h.previous_block_hash r f rest in
        let (answer, run, same) =
          and_redo-passes (redo_block currency check_ring_signature prefix_hash r k h) _ redone in
        let after =
          redo_block-after_block currency check_ring_signature prefix_hash r k h answer.0 answer.1 g
            room once run in
        (
          subst IsFilled (passes_eq same) after.1,
          (
            e,
            k,
            ek,
            h,
            eh,
            level,
            r,
            redone,
            ap (λ (t : BlockChainState). undo_block t k.header.base_transaction k.transactions)
                  (sym (passes_eq same))
                ∙ undo_block-redo_block currency check_ring_signature prefix_hash r k h answer.0
                    answer.1 g room once run,
            below,
          ),
        )

    -- For the tree of blocks over the chain's own state, with its `redo_block` and `undo_block`:
    -- from a valid main chain, where the blocks of the main chain fitted the states that they were
    -- redone from (indices were left for their outputs, and their rings of one member named
    -- outputs that were not spent, none of them twice) and in the state after the genesis block
    -- every amount's outputs have exactly the 32-bit indices below the next one, switching to a
    -- stored header, with a recent block that is stored too, leaves a valid main chain whose tip
    -- is the wanted block or the answer is false, and the stored headers, blocks, counters and
    -- tips as they were; or it ends in an exception, and then `redo_block` throws for a stored
    -- block that follows the tip of a valid main chain.
    pub reorganize_blocks-Switched :
        (bc : BlockChain BlockChainState) (switch_to_chain : ℕ) (h : BlockHeader)
        (pb : PreparedBlock) (info : BlockHeader)
        → IsFilled genesis_state
        → IsFitted bc
        → IsValid chain_state genesis_state bc
        → bc.headers switch_to_chain ≡ some h
        → bc.headers pb.bid ≡ some info
        → bc.blocks pb.bid ≡ some pb.block
        → Switched chain_state genesis_state bc switch_to_chain
            (reorganize_blocks chain_state bc switch_to_chain pb info)
    reorganize_blocks-Switched bc switch_to_chain h pb info f fitted =
        reorganize_blocks-IsValid chain_state genesis_state bc switch_to_chain h pb info
          (Fitted-Undoable bc bc.tip_height bc.tip_bid bc.state f fitted).1
