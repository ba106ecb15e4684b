-- ===== src/BlockChain/AddValid.antt =====
-- `BlockChain::add_block` as a whole.
use naza.Common.Options.{Option-cases}
use naza.Common.{◌+◌, ◌^◌, ◌<◌}
use naza.Common.{◌≡◌, refl, sym, ap, ◌∙◌, ◌⊎◌, inl, inr, arith}
use naza.Common.{Bool, false, ◌==◌, Bool-cases}
use naza.Common.{Option, none, some}
use naza.Block.{Block, BlockHeader, PreparedBlock}
use naza.BlockChain.{IBlockState, BlockChain}
use naza.BlockChain.Valid.{IsValid, IsUndoable}
use naza.BlockChain.Redo.{Thrown}
use naza.State.{put}
use naza.State.Store.{put_eq}
use naza.BlockChain.Children.{modify_children_counter, minus_one}
use naza.BlockChain.AddBlock.{
  store, attach, make_tip, advance, action_of, add_checked, add_block, Check, BroadcastAction,
  nothing, ban, fill_header, empty_header,
}
use naza.BlockChain.StoreBlock.{
  with_block, with_block-IsValid, IsStored, Fits, store_run, modify_children_counter-IsValid,
  none-some, with_block-IsUndoable, modify_children_counter-IsUndoable,
}
use naza.BlockChain.Added.{counted, IsStored-Kept, counted-IsStored, make_tip_run, advance-IsValid}

module _ {S : Type 0} (check : Check S) where
  -- What is checked keeps the hash, the parent and the height of the header.
  abbrev pub IsFilling : Type 0
  IsFilling =
      (bc : BlockChain S) (pb : PreparedBlock) (info prev_info filled : BlockHeader)
      → check bc pb info prev_info ≡ some filled
      → (filled.hash ≡ info.hash)
        × (filled.previous_block_hash ≡ info.previous_block_hash)
        × (filled.height ≡ info.height)

module _ {S : Type 0} (ops : IBlockState S) (genesis_state : S) where
  attach_child :
      (bc : BlockChain S) (pb : PreparedBlock) (info prev_info : BlockHeader)
      → (pb.bid == bc.genesis_bid) ≡ false
      → attach ops bc pb info prev_info
        ≡ some (
            modify_children_counter bc prev_info.cumulative_difficulty
              pb.block.header.previous_block_hash 1)
  unfolding attach
  attach_child bc pb info prev_info child = grind (arith, child)

  add_checked_throws :
      (bc stored attached tipped : BlockChain S) (pb : PreparedBlock) (info prev_info : BlockHeader)
      → store bc pb info ≡ some stored
      → attach ops stored pb info prev_info ≡ some attached
      → make_tip attached pb info ≡ some tipped
      → advance ops tipped pb info ≡ none
      → add_checked ops bc pb info prev_info ≡ none
  unfolding add_checked
  add_checked_throws bc stored attached tipped pb info prev_info h1 h2 h3 h4 =
      rw (h1, h2, h3, h4) refl

  add_checked_run :
      (bc stored attached tipped : BlockChain S) (r : Bool × BlockChain S) (pb : PreparedBlock)
      (info prev_info : BlockHeader)
      → store bc pb info ≡ some stored
      → attach ops stored pb info prev_info ≡ some attached
      → make_tip attached pb info ≡ some tipped
      → advance ops tipped pb info ≡ some r
      → add_checked ops bc pb info prev_info ≡ some (action_of ops r.0 r.1 info, r.1)
  unfolding add_checked
  add_checked_run bc stored attached tipped r pb info prev_info h1 h2 h3 h4 =
      rw (h1, h2, h3, h4) refl

  -- With the new block stored, `redo_block` throws on a block that follows the tip of a valid chain, or
  -- what is left is valid.
  abbrev pub IsAdded :
      BlockChain S → PreparedBlock → Option (BroadcastAction × BlockChain S) → Type 0
  IsAdded bc pb outcome =
      ((outcome ≡ none)
        × (info : BlockHeader) × Thrown ops genesis_state (put bc.headers pb.bid (some info))
            (put bc.blocks pb.bid (some pb.block)))
      ⊎ ((action : BroadcastAction) × (bd : BlockChain S) × (outcome ≡ some (action, bd))
          × IsValid ops genesis_state bd
          × IsStored bd)

  add_checked-IsValid :
      (bc : BlockChain S) (pb : PreparedBlock) (info prev_info : BlockHeader)
      → IsUndoable ops genesis_state bc
      → IsValid ops genesis_state bc
      → IsStored bc
      → bc.headers pb.bid ≡ none
      → (pb.bid == bc.genesis_bid) ≡ false
      → Fits bc pb info prev_info
      → IsAdded bc pb (add_checked ops bc pb info prev_info)
  unfolding modify_children_counter
  add_checked-IsValid bc pb info prev_info undoable v w free child fits =
      let (free', no_count, no_cd) = w.fresh pb.bid free in
      let stored = with_block bc pb info in
      let prev_hash = pb.block.header.previous_block_hash in
      let attached = modify_children_counter stored prev_info.cumulative_difficulty prev_hash 1 in
      let tipped = counted bc pb info prev_info in
      let valid : IsValid ops genesis_state tipped =
        modify_children_counter-IsValid ops genesis_state attached info.cumulative_difficulty pb.bid
          minus_one
          (modify_children_counter-IsValid ops genesis_state stored prev_info.cumulative_difficulty
            prev_hash 1
            (with_block-IsValid ops genesis_state bc pb info prev_info v free free' fits)) in
      let still : IsUndoable ops genesis_state tipped =
        modify_children_counter-IsUndoable ops genesis_state attached info.cumulative_difficulty
          pb.bid minus_one
          (modify_children_counter-IsUndoable ops genesis_state stored
            prev_info.cumulative_difficulty prev_hash 1
            (with_block-IsUndoable ops genesis_state bc pb info free free' undoable)) in
      let given = store_run bc pb info free free' in
      let child_of = attach_child stored pb info prev_info child in
      let tip = make_tip_run bc pb info prev_info w free fits in
      elim (advance-IsValid ops genesis_state tipped pb info still valid
        (put_eq bc.headers pb.bid (some info) pb.bid refl)
        (put_eq bc.blocks pb.bid (some pb.block) pb.bid refl) (omega (arith, fits.height))
        fits.previous) [
          | inl (throws, thrown) ↦ inl (
            add_checked_throws bc stored attached tipped pb info prev_info given child_of tip
                throws,
            info,
            thrown,
          )
          | inr (accepted, bd, run, u, hs, bs, kept) ↦ inr (
            action_of ops accepted bd info,
            bd,
            add_checked_run bc stored attached tipped (accepted, bd) pb info prev_info given
                child_of tip run,
            u,
            IsStored-Kept tipped bd (counted-IsStored bc pb info prev_info w free fits) hs bs kept,
          )
        ]

  module _ (check : Check S) (filling : IsFilling check) where
    add_block_known :
        (bc : BlockChain S) (pb : PreparedBlock) (h : BlockHeader) (k : Block)
        → bc.headers pb.bid ≡ some h
        → bc.blocks pb.bid ≡ some k
        → add_block ops check bc pb ≡ some (nothing, bc)
    unfolding add_block
    add_block_known bc pb h k eh ek = grind (arith, eh, ek)

    add_block_orphan :
        (bc : BlockChain S) (pb : PreparedBlock)
        → bc.headers pb.bid ≡ none
        → bc.blocks pb.bid ≡ none
        → (pb.bid == bc.genesis_bid) ≡ false
        → bc.headers pb.block.header.previous_block_hash ≡ none
        → add_block ops check bc pb ≡ some (nothing, bc)
    unfolding add_block
    add_block_orphan bc pb free free' child orphan = grind (arith, free, free', child, orphan)

    add_block_refused :
        (bc : BlockChain S) (pb : PreparedBlock) (prev_info : BlockHeader)
        → bc.headers pb.bid ≡ none
        → bc.blocks pb.bid ≡ none
        → (pb.bid == bc.genesis_bid) ≡ false
        → bc.headers pb.block.header.previous_block_hash ≡ some prev_info
        → check bc pb (fill_header empty_header pb prev_info) prev_info ≡ none
        → add_block ops check bc pb ≡ some (ban, bc)
    unfolding add_block
    add_block_refused bc pb prev_info free free' child parent checked =
        grind (arith, free, free', child, parent, checked)

    add_block_checked :
        (bc : BlockChain S) (pb : PreparedBlock) (prev_info filled : BlockHeader)
        → bc.headers pb.bid ≡ none
        → bc.blocks pb.bid ≡ none
        → (pb.bid == bc.genesis_bid) ≡ false
        → bc.headers pb.block.header.previous_block_hash ≡ some prev_info
        → check bc pb (fill_header empty_header pb prev_info) prev_info ≡ some filled
        → add_block ops check bc pb ≡ add_checked ops bc pb filled prev_info
    unfolding add_block
    add_block_checked bc pb prev_info filled free free' child parent checked =
        grind (arith, free, free', child, parent, checked)

    filled-Fits :
        (bc : BlockChain S) (pb : PreparedBlock) (prev_info filled : BlockHeader)
        → bc.headers pb.block.header.previous_block_hash ≡ some prev_info
        → prev_info.height + 1 < 2 ^ 32
        → check bc pb (fill_header empty_header pb prev_info) prev_info ≡ some filled
        → Fits bc pb filled prev_info
    unfolding fill_header
    filled-Fits bc pb prev_info filled parent room checked =
        let (hash, previous, height) =
          filling bc pb (fill_header empty_header pb prev_info) prev_info filled checked in
        record {
          hash = hash;
          previous = previous;
          parent = parent;
          height = omega arith;
          word = omega arith;
        }

    add_block_stored :
        (bc : BlockChain S) (pb : PreparedBlock) (m : Option (BroadcastAction × BlockChain S))
        → add_block ops check bc pb ≡ m
        → IsAdded bc pb m
        → IsAdded bc pb (add_block ops check bc pb)
    add_block_stored bc pb m run (inl (throws, info, thrown)) = inl (run ∙ throws, info, thrown)
    add_block_stored bc pb m run (inr (action, bd, passes, u, x)) =
        inr (action, bd, run ∙ passes, u, x)

    -- Over any derived class: on a valid main chain whose blocks can be undone, `add_block` leaves a
    -- valid main chain, or `redo_block` throws for a stored block.
    pub add_block-IsValid :
        (bc : BlockChain S) (pb : PreparedBlock)
        → IsUndoable ops genesis_state bc
        → IsValid ops genesis_state bc
        → IsStored bc
        → ((p : BlockHeader)
            → bc.headers pb.block.header.previous_block_hash ≡ some p
            → p.height + 1 < 2 ^ 32)
        → IsAdded bc pb (add_block ops check bc pb)
    add_block-IsValid bc pb undoable v w room = elim (Option-cases (bc.headers pb.bid)) [
      | inr (h, eh) ↦
          let (k, ek) = w.paired pb.bid h eh in
          inr (nothing, bc, add_block_known bc pb h k eh ek, v, w)
      | inl free ↦
          let (free', no_count, no_cd) = w.fresh pb.bid free in
          let child : (pb.bid == bc.genesis_bid) ≡ false = not_genesis free in
          elim (Option-cases (bc.headers pb.block.header.previous_block_hash)) [
            | inl orphan ↦ inr (nothing, bc, add_block_orphan bc pb free free' child orphan, v, w)
            | inr (p, parent) ↦
                elim (Option-cases (check bc pb (fill_header empty_header pb p) p)) [
                  | inl refused ↦
                      inr (ban, bc, add_block_refused bc pb p free free' child parent refused, v, w)
                  | inr (filled, checked) ↦
                      add_block_stored bc pb (add_checked ops bc pb filled p)
                        (add_block_checked bc pb p filled free free' child parent checked)
                        (add_checked-IsValid bc pb filled p undoable v w free child
                          (filled-Fits bc pb p filled parent (room p parent) checked))
                ]
          ]
    ]
      where
        not_genesis : bc.headers pb.bid ≡ none → (pb.bid == bc.genesis_bid) ≡ false
        not_genesis free = elim (Bool-cases (pb.bid == bc.genesis_bid)) [
          | inr differ ↦ differ
          | inl same ↦
              let e : pb.bid ≡ bc.genesis_bid = ground arith in
              absurd (none-some (sym free ∙ ap bc.headers e ∙ w.genesis.1))
        ]
