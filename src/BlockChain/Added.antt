-- ===== src/BlockChain/Added.antt =====
-- `BlockChain::add_block` keeps the main chain valid, and throws only where `redo_block` does.
use naza.Common.{ℕ, ◌<◌}
use naza.Common.{◌≡◌, refl, sym, ap, ◌∙◌, ◌≢◌, ◌⊎◌, inl, inr, arith}
use naza.Common.{Bool, true, false, ltb, ◌==◌, Bool-cases}
use naza.Common.{Option, none, some}
use naza.Block.{BlockHeader, PreparedBlock}
use naza.State.{put}
use naza.BlockChain.{IBlockState, BlockChain, push_chain}
use naza.BlockChain.Reorganize.{reorganize_blocks}
use naza.BlockChain.Valid.{Kept, IsValid, IsUndoable, push_chain-IsValid}
use native.Mathlib.Decide.{ℕ_discrete}
use naza.State.Store.{put_eq, put_ne}
use naza.BlockChain.Children.{check_children_counter, modify_children_counter, minus_one}
use naza.BlockChain.AddBlock.{make_tip, advance}
use naza.BlockChain.StoreBlock.{with_block, IsStored, Fits, put_mono, put-cases, none-some}
use naza.State.Redo.{RedoError, redo_throws, redo_fails, redo_passes}
use naza.BlockChain.Redo.{Redone-cases, Thrown}
use naza.BlockChain.Switch.{reorganize_blocks-IsValid}

put2_ne :
    (f : ℕ → ℕ → Bool) (j k : ℕ) (v : Bool) (x y : ℕ) → y ≢ k → put f j (put (f j) k v) x y ≡ f x y
put2_ne f j k v x y other = elim (ℕ_discrete x j) [
  | yes same ↦
      ap (λ (g : ℕ → Bool). g y) (put_eq f j (put (f j) k v) x same)
      ∙ put_ne (f j) k v y other
      ∙ ap (λ (i : ℕ). f i y) (sym same)
  | no differ ↦ ap (λ (g : ℕ → Bool). g y) (put_ne f j (put (f j) k v) x differ)
]

module _ {S : Type 0} where
  -- The chain with the new block, counted as a child and as a tip.
  abbrev pub counted : BlockChain S → PreparedBlock → BlockHeader → BlockHeader → BlockChain S
  counted bc pb info prev_info =
      modify_children_counter
        (modify_children_counter (with_block bc pb info) prev_info.cumulative_difficulty
          pb.block.header.previous_block_hash 1)
        info.cumulative_difficulty pb.bid minus_one

  pub IsStored-Kept :
      (bc bd : BlockChain S)
      → IsStored bc
      → bd.headers ≡ bc.headers
      → bd.blocks ≡ bc.blocks
      → Kept bc bd
      → IsStored bd
  IsStored-Kept bc bd w hs bs (g, c, t) = record {
    genesis = (w.genesis.0, rw (hs, g) w.genesis.1);
    paired = rw (hs, bs) w.paired;
    fresh = rw (hs, bs, c, t) w.fresh;
  }

  new_block-free :
      (bc : BlockChain S) (pb : PreparedBlock) (info : BlockHeader) (b : ℕ)
      → put bc.headers pb.bid (some info) b ≡ none
      → (b ≢ pb.bid) × (bc.headers b ≡ none)
  new_block-free bc pb info b e = elim (ℕ_discrete b pb.bid) [
    | yes same ↦ absurd (none-some (sym e ∙ put_eq bc.headers pb.bid (some info) b same))
    | no other ↦ (other, sym (put_ne bc.headers pb.bid (some info) b other) ∙ e)
  ]

  pub counted-IsStored :
      (bc : BlockChain S) (pb : PreparedBlock) (info prev_info : BlockHeader)
      → IsStored bc
      → bc.headers pb.bid ≡ none
      → Fits bc pb info prev_info
      → IsStored (counted bc pb info prev_info)
  unfolding modify_children_counter
  counted-IsStored bc pb info prev_info w free fits =
      let (free', no_count, no_cd) = w.fresh pb.bid free in
      record {
        genesis = (
          w.genesis.0,
          put_mono bc.headers pb.bid (some info) bc.genesis_bid w.genesis.0 free w.genesis.1,
        );
        paired = λ b h e. elim (put-cases bc.headers pb.bid info b h e) [
          | inl (same, is) ↦ (pb.block, put_eq bc.blocks pb.bid (some pb.block) b same)
          | inr old ↦
              let (k, ek) = w.paired b h old in
              (k, put_mono bc.blocks pb.bid (some pb.block) b k free' ek)
        ];
        fresh = λ b e.
            let (other, old) = new_block-free bc pb info b e in
            let (no_block, no_child, no_tip) = w.fresh b old in
            let prev_hash = pb.block.header.previous_block_hash in
            let child : b ≢ prev_hash =
              λ same. none-some (sym old ∙ ap bc.headers same ∙ fits.parent) in
            let attached =
              modify_children_counter (with_block bc pb info) prev_info.cumulative_difficulty
                prev_hash 1 in
            (
              put_ne bc.blocks pb.bid (some pb.block) b other ∙ no_block,
              put_ne attached.children pb.bid _ b other
                  ∙ put_ne bc.children prev_hash _ b child
                  ∙ no_child,
              λ cd.
                  put2_ne attached.cd_tips info.cumulative_difficulty pb.bid _ cd b other
                  ∙ put2_ne bc.cd_tips prev_info.cumulative_difficulty prev_hash _ cd b child
                  ∙ no_tip cd,
            );
      }

  make_tip-free :
      (bc : BlockChain S) (pb : PreparedBlock) (info : BlockHeader)
      → bc.children pb.bid ≡ none
      → bc.cd_tips info.cumulative_difficulty pb.bid ≡ false
      → make_tip bc pb info
        ≡ some (modify_children_counter bc info.cumulative_difficulty pb.bid minus_one)
  unfolding make_tip check_children_counter
  make_tip-free bc pb info no_child no_tip = rw (no_child, no_tip) refl

  pub make_tip_run :
      (bc : BlockChain S) (pb : PreparedBlock) (info prev_info : BlockHeader)
      → IsStored bc
      → bc.headers pb.bid ≡ none
      → Fits bc pb info prev_info
      → make_tip
          (modify_children_counter
            (with_block bc pb info)
            prev_info.cumulative_difficulty
            pb.block.header.previous_block_hash
            1)
          pb
          info
        ≡ some (counted bc pb info prev_info)
  unfolding modify_children_counter
  make_tip_run bc pb info prev_info w free fits =
      let (free', no_child, no_tip) = w.fresh pb.bid free in
      let prev_hash = pb.block.header.previous_block_hash in
      let child : pb.bid ≢ prev_hash =
        λ same. none-some (sym free ∙ ap bc.headers same ∙ fits.parent) in
      make_tip-free _ pb info (put_ne bc.children prev_hash _ pb.bid child ∙ no_child) (
        put2_ne bc.cd_tips prev_info.cumulative_difficulty prev_hash _ info.cumulative_difficulty
          pb.bid child
        ∙ no_tip info.cumulative_difficulty)

module _ {S : Type 0} (ops : IBlockState S) (genesis_state : S) where
  advance_light :
      (bc : BlockChain S) (pb : PreparedBlock) (info : BlockHeader)
      → ltb bc.tip_cumulative_difficulty info.cumulative_difficulty ≡ false
      → advance ops bc pb info ≡ some (true, bc)
  unfolding advance
  advance_light bc pb info light = grind (arith, light)

  advance_refused :
      (bc : BlockChain S) (pb : PreparedBlock) (info : BlockHeader) (error : RedoError)
      (conflict_height : ℕ)
      → ltb bc.tip_cumulative_difficulty info.cumulative_difficulty ≡ true
      → (bc.tip_bid == pb.block.header.previous_block_hash) ≡ true
      → ops.redo_block bc.state pb.bid pb.block info ≡ redo_fails error conflict_height
      → advance ops bc pb info ≡ some (false, bc)
  unfolding advance
  advance_refused bc pb info error conflict_height heavy next refused =
      grind (arith, heavy, next, refused)

  advance_push :
      (bc bd : BlockChain S) (pb : PreparedBlock) (info : BlockHeader) (s : S)
      → ltb bc.tip_cumulative_difficulty info.cumulative_difficulty ≡ true
      → (bc.tip_bid == pb.block.header.previous_block_hash) ≡ true
      → ops.redo_block bc.state pb.bid pb.block info ≡ redo_passes s
      → push_chain bc info s ≡ some bd
      → advance ops bc pb info ≡ some (true, bd)
  unfolding advance
  advance_push bc bd pb info s heavy next redone pushed = grind (arith, heavy, next, redone, pushed)

  advance_throws :
      (bc : BlockChain S) (pb : PreparedBlock) (info : BlockHeader)
      → ltb bc.tip_cumulative_difficulty info.cumulative_difficulty ≡ true
      → (bc.tip_bid == pb.block.header.previous_block_hash) ≡ true
      → ops.redo_block bc.state pb.bid pb.block info ≡ redo_throws
      → advance ops bc pb info ≡ none
  unfolding advance
  advance_throws bc pb info heavy next throws = grind (arith, heavy, next, throws)

  advance_side_throws :
      (bc : BlockChain S) (pb : PreparedBlock) (info : BlockHeader)
      → ltb bc.tip_cumulative_difficulty info.cumulative_difficulty ≡ true
      → (bc.tip_bid == pb.block.header.previous_block_hash) ≡ false
      → reorganize_blocks ops bc pb.bid pb info ≡ none
      → advance ops bc pb info ≡ none
  unfolding advance
  advance_side_throws bc pb info heavy side throws = grind (arith, heavy, side, throws)

  advance_side :
      (bc bd : BlockChain S) (pb : PreparedBlock) (info : BlockHeader) (result : Bool)
      → ltb bc.tip_cumulative_difficulty info.cumulative_difficulty ≡ true
      → (bc.tip_bid == pb.block.header.previous_block_hash) ≡ false
      → reorganize_blocks ops bc pb.bid pb info ≡ some (result, bd)
      → advance ops bc pb info ≡ some (true, bd)
  unfolding advance
  advance_side bc bd pb info result heavy side run = grind (arith, heavy, side, run)

  -- `redo_block` throws, or what is left is a valid chain with the same blocks.
  abbrev pub Advanced : BlockChain S → Option (Bool × BlockChain S) → Type 0
  Advanced bc outcome =
      ((outcome ≡ none) × Thrown ops genesis_state bc.headers bc.blocks)
      ⊎ ((accepted : Bool) × (bd : BlockChain S) × (outcome ≡ some (accepted, bd))
          × IsValid ops genesis_state bd
          × (bd.headers ≡ bc.headers)
          × (bd.blocks ≡ bc.blocks)
          × Kept bc bd)

  advance_next :
      (bc : BlockChain S) (pb : PreparedBlock) (info : BlockHeader)
      → IsValid ops genesis_state bc
      → bc.headers pb.bid ≡ some info
      → bc.blocks pb.bid ≡ some pb.block
      → 0 < info.height
      → info.previous_block_hash ≡ bc.tip_bid
      → ltb bc.tip_cumulative_difficulty info.cumulative_difficulty ≡ true
      → (bc.tip_bid == pb.block.header.previous_block_hash) ≡ true
      → Advanced bc (advance ops bc pb info)
  advance_next bc pb info v eh ek pos prev heavy next =
      elim (Redone-cases (ops.redo_block bc.state pb.bid pb.block info)) [
        | inl throws ↦ inl (
          advance_throws bc pb info heavy next throws,
          (bc, v, refl, refl, pb.bid, pb.block, ek, info, eh, prev, throws),
        )
        | inr (inl (error, conflict_height, refused)) ↦ inr (
          false,
          bc,
          advance_refused bc pb info error conflict_height heavy next refused,
          v,
          refl,
          refl,
          (refl, refl, refl),
        )
        | inr (inr (s, redone)) ↦
            let (bd, pushed, w, tip, hs, bs, kept) =
              push_chain-IsValid ops genesis_state bc pb.bid pb.block info s v eh ek pos prev
                redone in
            inr (true, bd, advance_push bc bd pb info s heavy next redone pushed, w, hs, bs, kept)
      ]

  -- The block on the tip is pushed, and another one that is heavier is switched to.
  pub advance-IsValid :
      (bc : BlockChain S) (pb : PreparedBlock) (info : BlockHeader)
      → IsUndoable ops genesis_state bc
      → IsValid ops genesis_state bc
      → bc.headers pb.bid ≡ some info
      → bc.blocks pb.bid ≡ some pb.block
      → 0 < info.height
      → info.previous_block_hash ≡ pb.block.header.previous_block_hash
      → Advanced bc (advance ops bc pb info)
  advance-IsValid bc pb info undoable v eh ek pos prev =
      elim (Bool-cases (ltb bc.tip_cumulative_difficulty info.cumulative_difficulty)) [
        | inr light ↦
            inr (true, bc, advance_light bc pb info light, v, refl, refl, (refl, refl, refl))
        | inl heavy ↦ elim (Bool-cases (bc.tip_bid == pb.block.header.previous_block_hash)) [
          | inl next ↦ advance_next bc pb info v eh ek pos (prev ∙ ground arith) heavy next
          | inr side ↦
              elim (reorganize_blocks-IsValid ops genesis_state bc pb.bid info pb info undoable v eh
                eh ek) [
                  | inl (throws, thrown) ↦
                      inl (advance_side_throws bc pb info heavy side throws, thrown)
                  | inr (result, bd, run, w, redone, hs, bs, kept) ↦
                      inr (
                        true,
                        bd,
                        advance_side bc bd pb info result heavy side run,
                        w,
                        hs,
                        bs,
                        kept,
                      )
                ]
        ]
      ]
