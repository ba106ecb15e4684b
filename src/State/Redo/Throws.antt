-- ===== src/State/Redo/Throws.antt =====
-- A block in which a key image stands twice makes `redo_block` throw.
use mathlib.Core.Path.{subst}
use naza.Common.{ℕ, ◌+◌}
use naza.Common.{◌≡◌, refl, sym, ◌∙◌, ◌⊎◌, inl, inr, arith}
use naza.Common.{Bool, true, false, ◌||◌, ◌==◌, ==_refl}
use naza.Common.{Option, none, some, List, [], ◌∷◌, ◌++◌}
use naza.Transaction.{TransactionInput, coinbase_input, key_input, Transaction}
use naza.State.{BlockChainState, IBlockChainState, reader}
use naza.State.Delta.{DeltaState, store_keyimage}
use naza.Currency.{Currency}
use naza.Block.{Block, BlockHeader}
use naza.State.Redo.{
  Redone, redo_throws, redo_passes, and_redo, or_throw, delta_reader, empty_delta, spend_single,
  RingCheck, redo_inputs, redo_outputs, apply_to_delta, redo_transaction_get_error,
  redo_transactions,
}
use naza.State.Redo.Whole.{block_delta, ring_work, redo_block}
use naza.RingChecker.{RingSignatureArg}
use naza.State.Redo.Images.{Added, has, images_of}
use naza.State.Redo.DoubleSpend.{redo_transactions-Added}

-- An exception or a result.
abbrev Unfailing : {A : Type 0} → Redone A → Type 0
Unfailing m = (m ≡ redo_throws) ⊎ ((a : _) × (m ≡ redo_passes a))

and_redo-Unfailing :
    {A B : Type 0} (m : Redone A) (f : A → Redone B)
    → Unfailing m
    → ((a : A) → Unfailing (f a))
    → Unfailing (and_redo m f)
and_redo-Unfailing m f (inl throws) h = inl (rw throws refl)
and_redo-Unfailing m f (inr (a, passes)) h = rw passes (h a)

or_throw-Unfailing : {A : Type 0} (m : Option A) → Unfailing (or_throw m)
or_throw-Unfailing none = inl refl
or_throw-Unfailing (some a) = inr (a, refl)

Added-again :
    (before after : ℕ → Bool) (k : ℕ) (ys zs : List ℕ)
    → before k ≡ true
    → Added before (ys ++ k ∷ zs) after
    → ⊥
Added-again before after k [] zs there (new, rest) = cc (sym there ∙ new)
Added-again before after k (y ∷ ys) zs there (new, rest) =
    Added-again (λ j. j == y || before j) after k ys zs (ground (arith, there)) rest

-- A number that stands twice in a list is not new the second time.
Added-twice :
    (before after : ℕ → Bool) (k : ℕ) (xs ys zs : List ℕ)
    → Added before (xs ++ k ∷ (ys ++ k ∷ zs)) after
    → ⊥
Added-twice before after k [] ys zs (new, rest) =
    Added-again (λ j. j == k || before j) after k ys zs (ground (arith, ==_refl k)) rest
Added-twice before after k (x ∷ xs) ys zs (new, rest) =
    Added-twice (λ j. j == x || before j) after k xs ys zs rest

module _ (currency : Currency) (check_ring_signature : RingCheck) where
  -- Where the signatures are not checked, no input is refused with an error.
  redo_inputs-Unfailing :
      (hash : ℕ) (signatures : List (List ℕ)) (index : ℕ) (inputs : List TransactionInput)
      (t : DeltaState) (p : IBlockChainState) (conflict : ℕ)
      → Unfailing (
          redo_inputs currency check_ring_signature false hash signatures index inputs t p conflict)
  unfolding redo_inputs
  redo_inputs-Unfailing hash signatures index [] t p conflict = inr ((t, conflict), refl)
  redo_inputs-Unfailing hash signatures index (coinbase_input block_index ∷ inputs) t p conflict =
      redo_inputs-Unfailing hash signatures (index + 1) inputs t p conflict
  redo_inputs-Unfailing hash signatures index (key_input amount output_indexes key_image ∷ inputs) t
        p conflict =
      and_redo-Unfailing
        (or_throw (store_keyimage (spend_single t amount output_indexes) key_image t.block_height))
        _ (or_throw-Unfailing _)
        (λ u. redo_inputs-Unfailing hash signatures (index + 1) inputs u p conflict)

  module _ (prefix_hash : Transaction → ℕ) where
    redo_transaction-Unfailing :
        (tx : Transaction) (d : DeltaState) (p : IBlockChainState)
        → Unfailing
            (redo_transaction_get_error currency check_ring_signature prefix_hash tx d p false)
    unfolding redo_transaction_get_error
    redo_transaction-Unfailing tx d p =
        let own = delta_reader d p in
        and_redo-Unfailing
          (redo_inputs currency check_ring_signature false (prefix_hash tx) tx.signatures 0
            tx.inputs (empty_delta d) own 0)
          _ (redo_inputs-Unfailing (prefix_hash tx) tx.signatures 0 tx.inputs (empty_delta d) own 0)
          (λ r.
            and_redo-Unfailing
              (or_throw (apply_to_delta (redo_outputs tx.unlock_time tx.outputs r.0 own).0 d p)) _
              (or_throw-Unfailing _) (λ e. inr (_, refl)))

    redo_transactions-Unfailing :
        (txs : List Transaction) (d : DeltaState) (p : IBlockChainState)
        → Unfailing (redo_transactions currency check_ring_signature prefix_hash txs d p)
    unfolding redo_transactions
    redo_transactions-Unfailing [] d p = inr ((d, []), refl)
    redo_transactions-Unfailing (tx ∷ txs) d p =
        and_redo-Unfailing
          (redo_transaction_get_error currency check_ring_signature prefix_hash tx d p false) _
          (redo_transaction-Unfailing tx d p)
          (λ r.
            and_redo-Unfailing
              (redo_transactions currency check_ring_signature prefix_hash txs r.0 p) _
              (redo_transactions-Unfailing txs r.0 p) (λ rest. inr (_, refl)))

    -- A block in which a key image stands twice, in any of its transactions, is not refused with
    -- an error: where the ring checker found no error when it started its work on the block, or
    -- the height after the block's is in the checkpoint zone and the ring checker is not started,
    -- `redo_block` throws an exception.
    pub redo_block-double_spend :
        (s : BlockChainState) (block : Block) (info : BlockHeader) (args : List RingSignatureArg)
        (key_image : ℕ) (xs ys zs : List ℕ)
        → ring_work currency check_ring_signature prefix_hash s block info ≡ redo_passes args
        → images_of (block.header.base_transaction ∷ block.transactions)
          ≡ xs ++ key_image ∷ (ys ++ key_image ∷ zs)
        → redo_block currency check_ring_signature prefix_hash s block info ≡ redo_throws
    unfolding redo_block
    redo_block-double_spend s block info args key_image xs ys zs started twice =
        let txs = block.header.base_transaction ∷ block.transactions in
        let delta = block_delta info in
        elim (redo_transactions-Unfailing txs delta (reader s)) [
          | inl throws ↦ rw (started, throws) refl
          | inr (r, passes) ↦
              let added =
                (redo_transactions-Added currency check_ring_signature prefix_hash txs delta
                  (reader s) r passes).0 in
              absurd (
                Added-twice (λ k. false) (has r.0.keyimages) key_image xs ys zs
                  (subst (λ (ks : List ℕ). Added (λ k. false) ks (has r.0.keyimages)) twice added))
        ]
