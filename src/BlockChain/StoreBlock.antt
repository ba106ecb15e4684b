-- ===== src/BlockChain/StoreBlock.antt =====
-- Storing a new block and its header, and counting it, keep the main chain valid.
use naza.Common.Options.{some_eq}
use naza.Common.{ℕ, ◌+◌, ◌^◌, ◌<◌}
use naza.Common.{◌≡◌, refl, sym, ap, ◌∙◌, ◌≢◌, ◌⊎◌, inl, inr, arith}
use naza.Common.{false}
use naza.Common.{Option, none, some}
use naza.Block.{Block, BlockHeader, PreparedBlock}
use naza.State.Store.{put_eq, put_ne}
use naza.State.{put}
use naza.BlockChain.{IBlockState, BlockChain}
use naza.BlockChain.Valid.{Replay-mono, IsValid, Undoable-mono, IsUndoable}
use native.Mathlib.Decide.{ℕ_discrete}
use naza.BlockChain.Children.{modify_children_counter}
use naza.BlockChain.AddBlock.{store}

pub none-some {ℓ} : {A : Type ℓ} {x : A} → none ≡ some x → ⊥
none-some h = cc

-- A map with a new key keeps what it had, and has nothing else but that key.
pub put_mono {ℓ} :
    {A : Type ℓ} (f : ℕ → Option A) (k : ℕ) (v : Option A) (x : ℕ) (a : A)
    → f k ≡ none
    → f x ≡ some a
    → put f k v x ≡ some a
put_mono f k v x a free e = put_ne f k v x (other x e) ∙ e
  where
    other : (y : ℕ) → f y ≡ some a → y ≢ k
    other y e same = none-some (sym free ∙ ap f (sym same) ∙ e)

pub put-cases {ℓ} :
    {A : Type ℓ} (f : ℕ → Option A) (k : ℕ) (v : A) (x : ℕ) (a : A)
    → put f k (some v) x ≡ some a
    → ((x ≡ k) × (v ≡ a)) ⊎ (f x ≡ some a)
put-cases f k v x a e = elim (ℕ_discrete x k) [
  | yes same ↦ inl (same, some_eq (sym (put_eq f k (some v) x same) ∙ e))
  | no other ↦ inr (sym (put_ne f k (some v) x other) ∙ e)
]

module _ {S : Type 0} where
  abbrev pub with_block : BlockChain S → PreparedBlock → BlockHeader → BlockChain S
  with_block bc pb info = record bc {
    blocks = put bc.blocks pb.bid (some pb.block);
    headers = put bc.headers pb.bid (some info);
  }

  -- What is stored: the genesis block is, a header has its block, and what is not stored is nowhere.
  pub record IsStored (bc : BlockChain S) : Type 0 where
    pub genesis : (h : BlockHeader) × (bc.headers bc.genesis_bid ≡ some h)
    pub paired :
        (b : ℕ) (h : BlockHeader) → bc.headers b ≡ some h → (k : Block) × (bc.blocks b ≡ some k)
    pub fresh :
        (b : ℕ)
        → bc.headers b ≡ none
        → (bc.blocks b ≡ none) × (bc.children b ≡ none) × ((cd : ℕ) → bc.cd_tips cd b ≡ false)

  pub store_run :
      (bc : BlockChain S) (pb : PreparedBlock) (info : BlockHeader)
      → bc.headers pb.bid ≡ none
      → bc.blocks pb.bid ≡ none
      → store bc pb info ≡ some (with_block bc pb info)
  unfolding store
  store_run bc pb info free free' = rw (free, free') refl

  -- A header that fits under a stored parent.
  pub record Fits (bc : BlockChain S) (pb : PreparedBlock) (info prev_info : BlockHeader)
      : Type 0 where
    pub hash : info.hash ≡ pb.bid
    pub previous : info.previous_block_hash ≡ pb.block.header.previous_block_hash
    pub parent : bc.headers pb.block.header.previous_block_hash ≡ some prev_info
    pub height : info.height ≡ prev_info.height + 1
    pub word : info.height < 2 ^ 32

  module _ (ops : IBlockState S) (genesis_state : S) where
    pub with_block-IsValid :
        (bc : BlockChain S) (pb : PreparedBlock) (info prev_info : BlockHeader)
        → IsValid ops genesis_state bc
        → bc.headers pb.bid ≡ none
        → bc.blocks pb.bid ≡ none
        → Fits bc pb info prev_info
        → IsValid ops genesis_state (with_block bc pb info)
    with_block-IsValid bc pb info prev_info v free free' fits =
        let keeps : (x : ℕ) (g : BlockHeader)
            → bc.headers x ≡ some g
            → put bc.headers pb.bid (some info) x ≡ some g =
          λ x g e. put_mono bc.headers pb.bid (some info) x g free e in
        record {
          tree = record {
            parent = λ b h e pos. elim (put-cases bc.headers pb.bid info b h e) [
              | inl (same, is) ↦ (
                prev_info,
                keeps h.previous_block_hash prev_info (
                    ap (λ (g : BlockHeader). bc.headers g.previous_block_hash) (sym is)
                    ∙ ap bc.headers fits.previous
                    ∙ fits.parent),
                omega (arith, fits.height, ap (λ (g : BlockHeader). g.height) is),
              )
              | inr old ↦
                  let (p, ep, lower) = v.tree.parent b h old pos in
                  (p, keeps h.previous_block_hash p ep, lower)
            ];
            genesis = λ b h e low. elim (put-cases bc.headers pb.bid info b h e) [
              | inl (same, is) ↦
                  absurd (omega (arith, low, fits.height, ap (λ (g : BlockHeader). g.height) is))
              | inr old ↦ v.tree.genesis b h old low
            ];
          };
          hashed = λ b h e. elim (put-cases bc.headers pb.bid info b h e) [
            | inl (same, is) ↦ (
              ap (λ (g : BlockHeader). g.hash) (sym is) ∙ fits.hash ∙ sym same,
              omega (arith, fits.word, ap (λ (g : BlockHeader). g.height) is),
            )
            | inr old ↦ v.hashed b h old
          ];
          parented = λ b h k e ek. elim (put-cases bc.headers pb.bid info b h e) [
            | inl (same, is) ↦ elim (put-cases bc.blocks pb.bid pb.block b k ek) [
              | inl (same', own) ↦
                  ap (λ (j : Block). j.header.previous_block_hash) (sym own)
                  ∙ sym fits.previous
                  ∙ ap (λ (g : BlockHeader). g.previous_block_hash) is
              | inr old ↦ absurd (none-some (sym free' ∙ ap bc.blocks (sym same) ∙ old))
            ]
            | inr old ↦ elim (put-cases bc.blocks pb.bid pb.block b k ek) [
              | inl (same', own) ↦ absurd (none-some (sym free ∙ ap bc.headers (sym same') ∙ old))
              | inr old' ↦ v.parented b h k old old'
            ]
          ];
          tip_header = v.tip_header;
          tip_stored = keeps bc.tip_bid v.tip_header v.tip_stored;
          tip_level = v.tip_level;
          tip_difficulty = v.tip_difficulty;
          above = v.above;
          replay =
              Replay-mono ops genesis_state bc (with_block bc pb info) bc.tip_height bc.tip_bid
                bc.state (λ m le. refl) keeps
                (λ x k e. put_mono bc.blocks pb.bid (some pb.block) x k free' e) v.replay;
        }

    pub modify_children_counter-IsValid :
        (bc : BlockChain S) (cd bid delta : ℕ)
        → IsValid ops genesis_state bc
        → IsValid ops genesis_state (modify_children_counter bc cd bid delta)
    unfolding modify_children_counter
    modify_children_counter-IsValid bc cd bid delta v = record {
      tree = v.tree;
      hashed = v.hashed;
      parented = v.parented;
      tip_header = v.tip_header;
      tip_stored = v.tip_stored;
      tip_level = v.tip_level;
      tip_difficulty = v.tip_difficulty;
      above = v.above;
      replay =
          Replay-mono ops genesis_state bc (modify_children_counter bc cd bid delta) bc.tip_height
            bc.tip_bid bc.state (λ m le. refl) (λ x g e. e) (λ x k e. e) v.replay;
    }

    -- Storing and counting a new block leave the main chain as it is.
    pub with_block-IsUndoable :
        (bc : BlockChain S) (pb : PreparedBlock) (info : BlockHeader)
        → bc.headers pb.bid ≡ none
        → bc.blocks pb.bid ≡ none
        → IsUndoable ops genesis_state bc
        → IsUndoable ops genesis_state (with_block bc pb info)
    with_block-IsUndoable bc pb info free free' u =
        Undoable-mono ops genesis_state bc (with_block bc pb info) bc.tip_height bc.tip_bid bc.state
          (λ m le. refl) (λ x g e. put_mono bc.headers pb.bid (some info) x g free e)
          (λ x k e. put_mono bc.blocks pb.bid (some pb.block) x k free' e) u

    pub modify_children_counter-IsUndoable :
        (bc : BlockChain S) (cd bid delta : ℕ)
        → IsUndoable ops genesis_state bc
        → IsUndoable ops genesis_state (modify_children_counter bc cd bid delta)
    unfolding modify_children_counter
    modify_children_counter-IsUndoable bc cd bid delta u =
        Undoable-mono ops genesis_state bc (modify_children_counter bc cd bid delta) bc.tip_height
          bc.tip_bid bc.state (λ m le. refl) (λ x g e. e) (λ x k e. e) u
