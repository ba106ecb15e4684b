-- ===== src/BlockChain/Redo.antt =====
-- The loop of `reorganize_blocks` that redoes the blocks of the other branch.
use naza.Common.{ℕ, ◌<◌}
use naza.Common.{◌≡◌, refl, sym, ap, ◌∙◌, ◌⊎◌, inl, inr, arith}
use naza.Common.{Bool, true, false, ◌==◌, Bool-cases}
use naza.Common.{Option, none, some, List, [], ◌∷◌, ◌++◌}
use mathlib.Core.List.{reverse, reverse-cons}
use naza.Common.{==_refl}
use naza.Block.{Block, BlockHeader, PreparedBlock}
use naza.State.{is_some}
use naza.State.Redo.{RedoError, Redone, redo_throws, redo_fails, redo_passes}
use naza.BlockChain.{IBlockState, BlockChain, push_chain}
use naza.BlockChain.Ancestor.{Headers, Branch}
use naza.BlockChain.Reorganize.{all_stored, block_of, header_of, redo_loop}
use naza.BlockChain.Valid.{Kept, Kept-trans, IsValid, push_chain-IsValid}

-- `path` leads from the block `base`, which it does not hold, up to `top`, over blocks that are stored.
abbrev pub Rise : Headers → (ℕ → Option Block) → ℕ → List ℕ → ℕ → Type 0
Rise headers blocks base [] top = base ≡ top
Rise headers blocks base (x ∷ path) top =
    (h : BlockHeader) × (headers x ≡ some h)
    × (0 < h.height)
    × (h.previous_block_hash ≡ base)
    × (k : Block) × (blocks x ≡ some k)
    × Rise headers blocks x path top

snoc-Rise :
    (headers : Headers) (blocks : ℕ → Option Block) (base mid : ℕ) (path : List ℕ) (h : BlockHeader)
    (k : Block) (top : ℕ)
    → Rise headers blocks base path mid
    → headers top ≡ some h
    → 0 < h.height
    → h.previous_block_hash ≡ mid
    → blocks top ≡ some k
    → Rise headers blocks base (path ++ top ∷ []) top
snoc-Rise headers blocks base mid [] h k top r e pos prev stored =
    (h, e, pos, prev ∙ sym r, k, stored, refl)
snoc-Rise headers blocks base mid (x ∷ path) h k top (g, eg, gp, gprev, j, ej, rest) e pos prev
      stored =
    (g, eg, gp, gprev, j, ej, snoc-Rise headers blocks x mid path h k top rest e pos prev stored)

-- A branch of stored blocks, from its back, leads up.
pub reverse-Rise :
    (headers : Headers) (blocks : ℕ → Option Block) (top : ℕ) (path : List ℕ) (base : ℕ)
    → Branch headers top path base
    → all_stored blocks path ≡ true
    → Rise headers blocks base (reverse path) top
reverse-Rise headers blocks top [] base b stored = sym b
reverse-Rise headers blocks top (x ∷ path) base (ex, h, eh, pos, rest) stored =
    let (k, ek) = stored_block (blocks x) (ground (arith, stored)) in
    rw (reverse-cons x path, ex)
      (snoc-Rise headers blocks base h.previous_block_hash (reverse path) h k top
        (reverse-Rise headers blocks h.previous_block_hash path base rest (ground (arith, stored)))
        eh pos refl (ap blocks (sym ex) ∙ ek))
  where
    stored_block : (o : Option Block) → is_some o ≡ true → (k : Block) × (o ≡ some k)
    stored_block none e = absurd (ground arith)
    stored_block (some k) e = (k, refl)

block_of_stored :
    {S : Type 0} (bc : BlockChain S) (pb : PreparedBlock) (x : ℕ) (k : Block)
    → bc.blocks pb.bid ≡ some pb.block
    → bc.blocks x ≡ some k
    → block_of bc pb x ≡ some k
unfolding block_of
block_of_stored bc pb x k ek ks = elim (Bool-cases (x == pb.bid)) [
  | inl same ↦ let e : x ≡ pb.bid = ground arith in rw same (sym ek ∙ ap bc.blocks (sym e) ∙ ks)
  | inr differ ↦ rw differ ks
]

header_of_stored :
    {S : Type 0} (bc : BlockChain S) (pb : PreparedBlock) (info : BlockHeader) (x : ℕ)
    (h : BlockHeader)
    → bc.headers pb.bid ≡ some info
    → bc.headers x ≡ some h
    → header_of bc pb info x ≡ some h
unfolding header_of
header_of_stored bc pb info x h eh hs = elim (Bool-cases (x == pb.bid)) [
  | inl same ↦ let e : x ≡ pb.bid = ground arith in rw same (sym eh ∙ ap bc.headers (sym e) ∙ hs)
  | inr differ ↦ rw differ hs
]

pub Redone-cases :
    {A : Type 0} (m : Redone A)
    → (m ≡ redo_throws)
      ⊎ (((error : RedoError) × (conflict_height : ℕ) × (m ≡ redo_fails error conflict_height))
          ⊎ ((a : A) × (m ≡ redo_passes a)))
Redone-cases redo_throws = inl refl
Redone-cases (redo_fails error conflict_height) = inr (inl (error, conflict_height, refl))
Redone-cases (redo_passes value) = inr (inr (value, refl))

module _ {S : Type 0} (ops : IBlockState S) (genesis_state : S) where
  redo_loop_stuck :
      (pb : PreparedBlock) (info : BlockHeader) (x : ℕ) (path : List ℕ) (bc : BlockChain S)
      (k : Block) (h : BlockHeader) (error : RedoError) (conflict_height : ℕ)
      → block_of bc pb x ≡ some k
      → header_of bc pb info x ≡ some h
      → (k.header.previous_block_hash == bc.tip_bid) ≡ true
      → ops.redo_block bc.state x k h ≡ redo_fails error conflict_height
      → redo_loop ops pb info (x ∷ path) bc ≡ some (false, bc)
  unfolding redo_loop
  redo_loop_stuck pb info x path bc k h error conflict_height ek eh prev redone =
      grind (arith, ek, eh, prev, redone)

  redo_loop_throws :
      (pb : PreparedBlock) (info : BlockHeader) (x : ℕ) (path : List ℕ) (bc : BlockChain S)
      (k : Block) (h : BlockHeader)
      → block_of bc pb x ≡ some k
      → header_of bc pb info x ≡ some h
      → (k.header.previous_block_hash == bc.tip_bid) ≡ true
      → ops.redo_block bc.state x k h ≡ redo_throws
      → redo_loop ops pb info (x ∷ path) bc ≡ none
  unfolding redo_loop
  redo_loop_throws pb info x path bc k h ek eh prev redone = grind (arith, ek, eh, prev, redone)

  redo_loop_more :
      (pb : PreparedBlock) (info : BlockHeader) (x : ℕ) (path : List ℕ) (bc bd : BlockChain S)
      (k : Block) (h : BlockHeader) (s : S)
      → block_of bc pb x ≡ some k
      → header_of bc pb info x ≡ some h
      → (k.header.previous_block_hash == bc.tip_bid) ≡ true
      → ops.redo_block bc.state x k h ≡ redo_passes s
      → push_chain bc h s ≡ some bd
      → redo_loop ops pb info (x ∷ path) bc ≡ redo_loop ops pb info path bd
  unfolding redo_loop
  redo_loop_more pb info x path bc bd k h s ek eh prev redone pushed =
      grind (arith, ek, eh, prev, redone, pushed)

  -- What is redone ends in the last block of the path, or where a block could not be redone.
  abbrev pub IsRedone : ℕ → Bool → BlockChain S → Type 0
  IsRedone top result bc = ((result ≡ true) × (bc.tip_bid ≡ top)) ⊎ (result ≡ false)

  -- Of the blocks that are stored here, one that follows the tip of a valid main chain makes `redo_block`
  -- throw.
  abbrev pub Thrown : Headers → (ℕ → Option Block) → Type 0
  Thrown headers blocks =
      (bc : BlockChain S) × IsValid ops genesis_state bc
      × (bc.headers ≡ headers)
      × (bc.blocks ≡ blocks)
      × (b : ℕ) × (k : Block) × (bc.blocks b ≡ some k)
      × (h : BlockHeader) × (bc.headers b ≡ some h)
      × (h.previous_block_hash ≡ bc.tip_bid)
      × (ops.redo_block bc.state b k h ≡ redo_throws)

  -- The outcome of a loop or a reorganization: `redo_block` throws, or a valid chain with the same
  -- blocks.
  abbrev pub Switched : BlockChain S → ℕ → Option (Bool × BlockChain S) → Type 0
  Switched bc top outcome =
      ((outcome ≡ none) × Thrown bc.headers bc.blocks)
      ⊎ ((result : Bool) × (bd : BlockChain S) × (outcome ≡ some (result, bd))
          × IsValid ops genesis_state bd
          × IsRedone top result bd
          × (bd.headers ≡ bc.headers)
          × (bd.blocks ≡ bc.blocks)
          × Kept bc bd)

  -- What happens to a later chain with the same blocks happens to an earlier one.
  pub Switched-trans :
      (bc bd : BlockChain S) (top : ℕ) (m n : Option (Bool × BlockChain S))
      → bd.headers ≡ bc.headers
      → bd.blocks ≡ bc.blocks
      → Kept bc bd
      → n ≡ m
      → Switched bd top m
      → Switched bc top n
  Switched-trans bc bd top m n hs bs kept run
        (inl (throws, (be, w, hs', bs', b, k, ek, h, eh, prev, e))) =
      inl (run ∙ throws, (be, w, hs' ∙ hs, bs' ∙ bs, b, k, ek, h, eh, prev, e))
  Switched-trans bc bd top m n hs bs kept run
        (inr (result, be, passes, w, redone, hs', bs', kept')) =
      inr (result, be, run ∙ passes, w, redone, hs' ∙ hs, bs' ∙ bs, Kept-trans bc bd be kept kept')

  pub redo_loop-IsValid :
      (pb : PreparedBlock) (info : BlockHeader) (path : List ℕ) (top : ℕ) (bc : BlockChain S)
      → IsValid ops genesis_state bc
      → Rise bc.headers bc.blocks bc.tip_bid path top
      → bc.headers pb.bid ≡ some info
      → bc.blocks pb.bid ≡ some pb.block
      → Switched bc top (redo_loop ops pb info path bc)
  redo_loop-IsValid pb info [] top bc v same eh ek =
      inr (true, bc, unfold redo_loop in refl, v, inl (refl, same), refl, refl, (refl, refl, refl))
  redo_loop-IsValid pb info (x ∷ path) top bc v (h, hs, pos, prev, k, ks, rest) eh ek =
      let own_block : block_of bc pb x ≡ some k = block_of_stored bc pb x k ek ks in
      let own_header : header_of bc pb info x ≡ some h = header_of_stored bc pb info x h eh hs in
      let linked : (k.header.previous_block_hash == bc.tip_bid) ≡ true =
        ground (arith, v.parented x h k hs ks, ==_refl bc.tip_bid) in
      elim (Redone-cases (ops.redo_block bc.state x k h)) [
        | inl throws ↦ inl (
          redo_loop_throws pb info x path bc k h own_block own_header linked throws,
          (bc, v, refl, refl, x, k, ks, h, hs, prev, throws),
        )
        | inr (inl (error, conflict_height, stuck)) ↦ inr (
          false,
          bc,
          redo_loop_stuck pb info x path bc k h error conflict_height own_block own_header linked
              stuck,
          v,
          inr refl,
          refl,
          refl,
          (refl, refl, refl),
        )
        | inr (inr (s, redone)) ↦
            let (bd, pushed, w, tip, same_headers, same_blocks, kept) =
              push_chain-IsValid ops genesis_state bc x k h s v hs ks pos prev redone in
            Switched-trans bc bd top (redo_loop ops pb info path bd) _ same_headers same_blocks kept
              (redo_loop_more pb info x path bc bd k h s own_block own_header linked redone pushed)
              (redo_loop-IsValid pb info path top bd w (rw (same_headers, same_blocks, tip) rest)
                (ap (λ (f : Headers). f pb.bid) same_headers ∙ eh)
                (ap (λ (f : ℕ → Option Block). f pb.bid) same_blocks ∙ ek))
      ]
