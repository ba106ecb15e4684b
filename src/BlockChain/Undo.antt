-- ===== src/BlockChain/Undo.antt =====
-- The loop of `reorganize_blocks` that undoes the main chain.
use naza.Common.Options.{some_eq}
use naza.Common.{ℕ, zero, suc, ◌≤◌, ◌<◌}
use naza.Common.{◌≡◌, refl, sym, ap, ◌∙◌, inl, inr, arith}
use naza.Common.{true, false, ◌==◌, Bool-cases}
use naza.Common.{some, List, [], ◌∷◌}
use naza.Common.{==_refl}
use naza.Block.{BlockHeader}
use naza.BlockChain.{IBlockState, BlockChain}
use naza.BlockChain.Ancestor.{Branch}
use naza.BlockChain.Reorganize.{undo_tip, undo_loop}
use naza.BlockChain.Valid.{Kept, Kept-trans, IsValid, IsUndoable, pop_chain-IsValid}

module _ {S : Type 0} (ops : IBlockState S) (genesis_state : S) where
  undo_loop_more :
      (fuel : ℕ) (bc bd : BlockChain S) (common : ℕ)
      → (bc.tip_bid == common) ≡ false
      → undo_tip ops bc ≡ some bd
      → undo_loop ops (suc fuel) bc common ≡ undo_loop ops fuel bd common
  unfolding undo_loop
  undo_loop_more fuel bc bd common differ step = grind (arith, step)

  undo_loop_done :
      (fuel : ℕ) (bc : BlockChain S) (common : ℕ)
      → (bc.tip_bid == common) ≡ true
      → undo_loop ops fuel bc common ≡ some bc
  unfolding undo_loop
  undo_loop_done zero bc common same = ground arith
  undo_loop_done (suc fuel) bc common same = ground arith

  -- A tip that is above the genesis block can be undone.
  undo_tip-IsValid :
      (bc : BlockChain S)
      → IsUndoable ops genesis_state bc
      → IsValid ops genesis_state bc
      → 0 < bc.tip_height
      → (bd : BlockChain S) × (undo_tip ops bc ≡ some bd)
        × IsValid ops genesis_state bd
        × IsUndoable ops genesis_state bd
        × (h : BlockHeader) × (bc.headers bc.tip_bid ≡ some h)
        × (bd.tip_bid ≡ h.previous_block_hash)
        × (suc bd.tip_height ≡ bc.tip_height)
        × (bd.headers ≡ bc.headers)
        × (bd.blocks ≡ bc.blocks)
        × Kept bc bd
  unfolding undo_tip
  undo_tip-IsValid bc undoable v pos =
      let (k, ek, s, undone, bd, popped, w, below, h, eh, tip, lower, hs, bs, kept) =
        pop_chain-IsValid ops genesis_state bc undoable v pos in
      (bd, rw (ek, undone) popped, w, below, h, eh, tip, lower, hs, bs, kept)

  -- A branch that leads down from the tip is undone to its base.
  pub undo_loop-IsValid :
      (fuel : ℕ) (path : List ℕ) (common : ℕ) (bc : BlockChain S)
      → IsUndoable ops genesis_state bc
      → IsValid ops genesis_state bc
      → Branch bc.headers bc.tip_bid path common
      → bc.tip_height ≤ fuel
      → (bd : BlockChain S) × (undo_loop ops fuel bc common ≡ some bd)
        × IsValid ops genesis_state bd
        × (bd.tip_bid ≡ common)
        × (bd.headers ≡ bc.headers)
        × (bd.blocks ≡ bc.blocks)
        × Kept bc bd
  undo_loop-IsValid fuel [] common bc undoable v b enough = (
    bc,
    undo_loop_done fuel bc common (ground (arith, ==_refl common)),
    v,
    b,
    refl,
    refl,
    (refl, refl, refl),
  )
  undo_loop-IsValid zero (x ∷ path) common bc undoable v (ex, h, eh, pos, rest) enough =
      let same : h ≡ v.tip_header = some_eq (sym eh ∙ v.tip_stored) in
      absurd (omega (arith, v.tip_level, ap (λ (g : BlockHeader). g.height) same))
  undo_loop-IsValid (suc fuel) (x ∷ path) common bc undoable v (ex, h, eh, pos, rest) enough =
      elim (Bool-cases (bc.tip_bid == common)) [
        | inl same ↦ (
          bc,
          undo_loop_done (suc fuel) bc common same,
          v,
          ground arith,
          refl,
          refl,
          (refl, refl, refl),
        )
        | inr differ ↦
            let same : h ≡ v.tip_header = some_eq (sym eh ∙ v.tip_stored) in
            let above : 0 < bc.tip_height =
              omega (arith, v.tip_level, ap (λ (g : BlockHeader). g.height) same) in
            let (bd, step, w, below, g, eg, tip, lower, hs, bs, kept) =
              undo_tip-IsValid bc undoable v above in
            let same' : g ≡ h = some_eq (sym eg ∙ eh) in
            let next : bd.tip_bid ≡ h.previous_block_hash =
              tip ∙ ap (λ (f : BlockHeader). f.previous_block_hash) same' in
            let (be, run, u, at, hs', bs', kept') =
              undo_loop-IsValid fuel path common bd below w (rw (hs, next) rest) (omega arith) in
            (
              be,
              undo_loop_more fuel bc bd common differ step ∙ run,
              u,
              at,
              hs' ∙ hs,
              bs' ∙ bs,
              Kept-trans bc bd be kept kept',
            )
      ]
