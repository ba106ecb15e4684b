-- ===== src/State/Redo/Inverse.antt =====
-- `BlockChainState::redo_block` and `undo_block`: the state after a block, and back.
use mathlib.Core.Path.{subst, fun_ext}
use naza.Common.{ℕ}
use naza.Common.{◌≡◌, refl, sym, ap, ◌∙◌}
use naza.Common.{false}
use naza.Common.{none, some, List, [], ◌∷◌}
use naza.Transaction.{Transaction}
use naza.State.{BlockChainState, reader}
use naza.State.Store.{IsFilled}
use naza.State.Apply.{undo_block}
use naza.Currency.{Currency}
use naza.Block.{Block, BlockHeader}
use naza.State.Redo.{RingCheck, redo_passes}
use naza.State.Redo.Whole.{block_delta, redo_block}
use naza.State.Redo.Spent.{spent, redo_block-passed, redo_block-Added}
use naza.State.Redo.Images.{images_of}
use naza.State.Redo.Holds.{Holds}
use naza.State.Redo.Content.{redo_transactions-Holds}
use naza.State.Built.{Images, Outputs, built, built-IsFilled, Room}
use naza.State.Built.Content.{
  add_images, add_outputs, add_marks, outputs_made, singles_of, after_block, Spends, Added-New,
}
use naza.State.Built.Undo.{undo_block-after_block}
use naza.State.Built.Applied.{apply-built}

-- The transactions of a block, the coinbase first.
abbrev pub block_transactions : Block → List Transaction
block_transactions block = block.header.base_transaction ∷ block.transactions

-- Each amount has 32-bit indices left for the outputs that the transactions make of it.
abbrev pub HasRoom : BlockChainState → List Transaction → Type 0
HasRoom s txs = Room s (add_outputs (λ a. []) (outputs_made txs))

-- The rings of one member name outputs of the state that were not spent, none of them twice.
abbrev pub SpendsOnce : BlockChainState → List Transaction → Type 0
SpendsOnce s txs = Spends s (λ a i. false) (singles_of txs)

module _ (currency : Currency) (check_ring_signature : RingCheck)
    (prefix_hash : Transaction → ℕ) where
  -- In a state where every amount's outputs have exactly the 32-bit indices below the next one:
  -- where `redo_block` accepts a block whose outputs find an index for each, and whose rings of
  -- one member name outputs of the state that were not spent, none of them twice, the new state is
  -- the old one with the key images of the block at its height, its outputs after those of their
  -- amounts in the order of the block, and the named outputs marked as spent; and the outputs of
  -- the new state have exactly the indices below the next one again.
  pub redo_block-after_block :
      (s : BlockChainState) (block : Block) (info : BlockHeader) (t : BlockChainState)
      (indices : List (List ℕ))
      → IsFilled s
      → HasRoom s (block_transactions block)
      → SpendsOnce s (block_transactions block)
      → redo_block currency check_ring_signature prefix_hash s block info ≡ redo_passes (t, indices)
      → (t ≡ after_block s info.height (block_transactions block)) × IsFilled t
  redo_block-after_block s block info t indices f room once h =
      let txs = block_transactions block in
      let delta = block_delta info in
      let (args, started, valid, d, run, applied) =
        redo_block-passed currency check_ring_signature prefix_hash s block info t indices h in
      let start : Holds delta info.height (λ k. none) (λ a. []) [] = record {
        found = λ k. refl;
        pushed = λ a. refl;
        spent = refl;
        ordered = tt;
        unique = tt;
        block_height = refl;
      } in
      let held =
        redo_transactions-Holds currency check_ring_signature prefix_hash txs delta (reader s)
          (d, indices) info.height (λ k. none) (λ a. []) [] start run in
      let made = fun_ext held.pushed in
      let state : ℕ → Images → Outputs → List (ℕ × ℕ) → BlockChainState =
        λ n k g l. built s n k g (add_marks (λ a i. false) l) in
      let after : t ≡ after_block s info.height txs =
        apply-built d s t f held.ordered (subst (Room s) (sym made) room)
          (subst (Spends s (λ a i. false)) (sym held.spent) once) applied
        ∙ (λ i. state (held.block_height i) (fun_ext held.found i) (made i) (held.spent i)) in
      (
        after,
        subst IsFilled (sym after) (
            built-IsFilled s info.height (add_images info.height (λ k. none) (images_of txs))
              (add_outputs (λ a. []) (outputs_made txs)) (add_marks (λ a i. false) (singles_of txs))
              f room),
      )

  -- In a state where every amount's outputs have exactly the 32-bit indices below the next one:
  -- where `redo_block` accepts a block whose outputs find an index for each, and whose rings of
  -- one member name outputs of the state that were not spent, none of them twice, `undo_block`
  -- succeeds on the new state and gives back exactly the state before the block.
  pub undo_block-redo_block :
      (s : BlockChainState) (block : Block) (info : BlockHeader) (t : BlockChainState)
      (indices : List (List ℕ))
      → IsFilled s
      → HasRoom s (block_transactions block)
      → SpendsOnce s (block_transactions block)
      → redo_block currency check_ring_signature prefix_hash s block info ≡ redo_passes (t, indices)
      → undo_block t block.header.base_transaction block.transactions ≡ some s
  undo_block-redo_block s block info t indices f room once h =
      let txs = block_transactions block in
      let added =
        redo_block-Added currency check_ring_signature prefix_hash s block info t indices h in
      ap (λ (u : BlockChainState). undo_block u block.header.base_transaction block.transactions)
        (redo_block-after_block s block info t indices f room once h).0
      ∙ undo_block-after_block s info.height block.header.base_transaction block.transactions f room
          (Added-New s info.height (λ k. none) (spent s) (spent t) (images_of txs) (λ k. refl)
            added.2)
          once
