-- ===== src/BlockChain/Switch.antt =====
-- `BlockChain::reorganize_blocks` as a whole: what it leaves is a valid chain, and its state does not depend
-- on the blocks that were undone before.
use naza.Common.Options.{some_eq}
use naza.Common.{ℕ, zero, suc}
use naza.Common.{◌≡◌, refl, sym, ap, ◌∙◌, inl, inr, arith}
use naza.Common.{true, false, Bool-cases}
use naza.Common.{Option, some}
use mathlib.Core.Path.{subst}
use mathlib.Core.List.{reverse}
use naza.Block.{Block, BlockHeader, PreparedBlock}
use naza.BlockChain.{IBlockState, BlockChain}
use naza.BlockChain.Ancestor.{Headers, CommonBlock, get_common_block}
use naza.BlockChain.Ancestor.Common.{get_common_block-IsCommon}
use naza.BlockChain.Reorganize.{all_stored, undo_loop, redo_loop, reorganize_blocks}
use naza.State.Redo.DoubleSpend.{passes_eq}
use naza.BlockChain.Valid.{Replay, IsValid, IsUndoable}
use naza.BlockChain.Undo.{undo_loop-IsValid}
use naza.BlockChain.Redo.{Rise, reverse-Rise, redo_loop-IsValid, Switched, Switched-trans}

module _ {S : Type 0} (ops : IBlockState S) (genesis_state : S) where
  Replay-state :
      (bc bd : BlockChain S) (n b : ℕ) (s t : S)
      → bd.headers ≡ bc.headers
      → bd.blocks ≡ bc.blocks
      → Replay ops genesis_state bc n b s
      → Replay ops genesis_state bd n b t
      → s ≡ t
  Replay-state bc bd zero b s t hs bs (e, start) (f, start') = start ∙ sym start'
  Replay-state bc bd (suc n) b s t hs bs (e, k, ek, h, eh, level, r, redone, rest)
        (f, j, ej, g, eg, level', q, redone', rest') =
      let same_header : g ≡ h = some_eq (sym eg ∙ ap (λ (m : Headers). m b) hs ∙ eh) in
      let same_block : j ≡ k = some_eq (sym ej ∙ ap (λ (m : ℕ → Option Block). m b) bs ∙ ek) in
      let below : Replay ops genesis_state bd n h.previous_block_hash q =
        subst (λ (f : BlockHeader). Replay ops genesis_state bd n f.previous_block_hash q)
          same_header rest' in
      let same : r ≡ q = Replay-state bc bd n h.previous_block_hash r q hs bs rest below in
      passes_eq (sym redone ∙ rw (same, ← same_header, ← same_block) redone')

  -- Two valid chains over the same headers and blocks with the same tip have the same state.
  pub tip_state_unique :
      (bc bd : BlockChain S)
      → IsValid ops genesis_state bc
      → IsValid ops genesis_state bd
      → bd.headers ≡ bc.headers
      → bd.blocks ≡ bc.blocks
      → bd.tip_bid ≡ bc.tip_bid
      → bc.state ≡ bd.state
  tip_state_unique bc bd v w hs bs tip =
      let same : w.tip_header ≡ v.tip_header = some_eq (
        sym w.tip_stored
        ∙ ap bd.headers tip
        ∙ ap (λ (m : Headers). m bc.tip_bid) hs
        ∙ v.tip_stored) in
      let level : bd.tip_height ≡ bc.tip_height =
        omega (arith, w.tip_level, v.tip_level, ap (λ (g : BlockHeader). g.height) same) in
      Replay-state bc bd bc.tip_height bc.tip_bid bc.state bd.state hs bs v.replay
        (rw (sym level, sym tip) w.replay)

  reorganize_blocks_run :
      (bc bd : BlockChain S) (switch_to_chain : ℕ) (pb : PreparedBlock) (info : BlockHeader)
      (c : CommonBlock)
      → get_common_block bc.headers bc.tip_bid switch_to_chain ≡ some c
      → all_stored bc.blocks c.chain2 ≡ true
      → undo_loop ops bc.tip_height bc c.common ≡ some bd
      → reorganize_blocks ops bc switch_to_chain pb info
        ≡ redo_loop ops pb info (reverse c.chain2) bd
  unfolding reorganize_blocks
  reorganize_blocks_run bc bd switch_to_chain pb info c met stored undone =
      grind (arith, met, stored, undone)

  reorganize_blocks_missing :
      (bc : BlockChain S) (switch_to_chain : ℕ) (pb : PreparedBlock) (info : BlockHeader)
      (c : CommonBlock)
      → get_common_block bc.headers bc.tip_bid switch_to_chain ≡ some c
      → all_stored bc.blocks c.chain2 ≡ false
      → reorganize_blocks ops bc switch_to_chain pb info ≡ some (false, bc)
  unfolding reorganize_blocks
  reorganize_blocks_missing bc switch_to_chain pb info c met stored = grind (arith, met, stored)

  -- Over any derived class: from a valid main chain whose blocks can be undone, switching to a
  -- stored header leaves a valid chain, or `redo_block` throws for a stored block.
  pub reorganize_blocks-IsValid :
      (bc : BlockChain S) (switch_to_chain : ℕ) (h : BlockHeader) (pb : PreparedBlock)
      (info : BlockHeader)
      → IsUndoable ops genesis_state bc
      → IsValid ops genesis_state bc
      → bc.headers switch_to_chain ≡ some h
      → bc.headers pb.bid ≡ some info
      → bc.blocks pb.bid ≡ some pb.block
      → Switched ops genesis_state bc switch_to_chain
          (reorganize_blocks ops bc switch_to_chain pb info)
  reorganize_blocks-IsValid bc switch_to_chain h pb info undoable v eh ei ek =
      let (c, met, common) =
        get_common_block-IsCommon bc.headers bc.genesis_bid v.tree bc.tip_bid switch_to_chain
          v.tip_header h v.tip_stored eh in
      elim (Bool-cases (all_stored bc.blocks c.chain2)) [
        | inr missing ↦ inr (
          false,
          bc,
          reorganize_blocks_missing bc switch_to_chain pb info c met missing,
          v,
          inr refl,
          refl,
          refl,
          (refl, refl, refl),
        )
        | inl stored ↦
            let (bd, undone, w, tip, same_headers, same_blocks, kept) =
              undo_loop-IsValid ops genesis_state bc.tip_height c.chain1 c.common bc undoable v
                common.way1 (omega arith) in
            let path : Rise bd.headers bd.blocks bd.tip_bid (reverse c.chain2) switch_to_chain =
              rw (same_headers, same_blocks, tip)
                (reverse-Rise bc.headers bc.blocks switch_to_chain c.chain2 c.common common.way2
                  stored) in
            Switched-trans ops genesis_state bc bd switch_to_chain
              (redo_loop ops pb info (reverse c.chain2) bd) _ same_headers same_blocks kept
              (reorganize_blocks_run bc bd switch_to_chain pb info c met stored undone)
              (redo_loop-IsValid ops genesis_state pb info (reverse c.chain2) switch_to_chain bd w
                path (ap (λ (f : Headers). f pb.bid) same_headers ∙ ei)
                (ap (λ (f : ℕ → Option Block). f pb.bid) same_blocks ∙ ek))
      ]
