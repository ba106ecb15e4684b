-- ===== src/State/Redo/Spent.antt =====
-- `BlockChainState::redo_block`: the key images of the chain after a block.
use naza.Common.Options.{some_eq}
use naza.Common.{ℕ, ◌+◌, List, [], ◌∷◌, some, length}
use naza.Common.{◌≡◌, refl, sym, ap, ◌∙◌, ◌⊎◌, inl, inr, arith}
use naza.Common.{Bool, true, false, not, ◌&&◌, ◌||◌, ◌==◌, if◌then◌else◌, Bool-cases}
use naza.Common.Options.{>>=-eq-some}
use naza.Transaction.{Transaction}
use naza.Currency.{Currency}
use naza.Block.{Block, BlockHeader}
use naza.State.{BlockChainState, IBlockChainState, reader, is_some}
use naza.State
use naza.State.Delta.{DeltaState}
use naza.State.Apply.{apply, apply_keyimages, apply_amounts, apply_outputs}
use naza.State.Refines.{apply_keyimages-stored, apply_spent-keeps, push_amount_output-next}
use naza.State.Redo.{
  RedoError, input_invalid_signatures, Redone, redo_fails, redo_passes, or_throw, RingCheck,
  redo_transactions,
}
use naza.State.Redo.Whole.{check_sigs, block_delta, arg_check, ring_work, redo_block}
use naza.RingChecker.{RingSignatureArg, start_work_get_error, ring_transactions, all_pass}
use naza.RingChecker.Sound.{SoundTransactions, ring_transactions-Sound}
use naza.State.Redo.Images.{Added, Added-cong, Added-beside, has, images_of}
use naza.State.Redo.DoubleSpend.{
  passes_eq, and_redo-passes, or_throw-passes, redo_transactions-Added,
}

-- The key images that were spent.
abbrev pub spent : BlockChainState → ℕ → Bool
spent s k = is_some (s.keyimages k)

pub store_keyimage-free :
    (s : BlockChainState) (key_image height : ℕ) (t : BlockChainState)
    → State.store_keyimage s key_image height ≡ some t
    → spent s key_image ≡ false
unfolding State.store_keyimage
store_keyimage-free s key_image height t h = elim (Bool-cases (spent s key_image)) [
  | inl there ↦ absurd (clash there)
  | inr free ↦ free
]
  where
    clash : spent s key_image ≡ true → ⊥
    clash there = grind (arith, there, h)

apply_keyimages-free :
    (kis : List (ℕ × ℕ)) (s t : BlockChainState)
    → apply_keyimages kis s ≡ some t
    → (k : ℕ) → has kis k ≡ true
    → spent s k ≡ false
unfolding apply_keyimages
apply_keyimages-free [] s t h k x = ground (arith, x)
apply_keyimages-free ((key_image, height) ∷ rest) s t h k x =
    let (u, stored, more) = >>=-eq-some (State.store_keyimage s key_image height) _ h in
    let later = apply_keyimages-free rest u t more k in
    elim (Bool-cases (k == key_image)) [
      | inl same ↦
          let e : k ≡ key_image = ground arith in
          ap (λ (j : ℕ). spent s j) e ∙ store_keyimage-free s key_image height u stored
      | inr differ ↦ ground (
        arith,
        later (ground (arith, x, differ)),
        (apply_keyimages-stored ((key_image, height) ∷ []) s (one s key_image height u stored)).0 k,
      )
    ]
  where
    one :
        (s : BlockChainState) (key_image height : ℕ) (u : BlockChainState)
        → State.store_keyimage s key_image height ≡ some u
        → apply_keyimages ((key_image, height) ∷ []) s ≡ some u
    one s key_image height u stored = grind (arith, stored)

apply_outputs-images :
    (height amount : ℕ) (outputs : List (ℕ × ℕ)) (s t : BlockChainState)
    → apply_outputs height amount outputs s ≡ some t
    → (k : ℕ) → t.keyimages k ≡ s.keyimages k
unfolding apply_outputs
apply_outputs-images height amount [] s t h k =
    ap (λ (u : BlockChainState). u.keyimages k) (sym (some_eq h))
apply_outputs-images height amount ((unlock_time, pk) ∷ rest) s t h k =
    let (r, pushed, more) =
      >>=-eq-some (State.push_amount_output s amount unlock_time height pk) _ h in
    apply_outputs-images height amount rest r.0 t more k
    ∙ (push_amount_output-next s amount unlock_time height pk pushed).0 k

apply_amounts-images :
    (height : ℕ) (entries : List (ℕ × List (ℕ × ℕ))) (s t : BlockChainState)
    → apply_amounts height entries s ≡ some t
    → (k : ℕ) → t.keyimages k ≡ s.keyimages k
unfolding apply_amounts
apply_amounts-images height [] s t h k =
    ap (λ (u : BlockChainState). u.keyimages k) (sym (some_eq h))
apply_amounts-images height ((amount, outputs) ∷ rest) s t h k =
    let (u, given, more) = >>=-eq-some (apply_outputs height amount outputs s) _ h in
    apply_amounts-images height rest u t more k
    ∙ apply_outputs-images height amount outputs s u given k

-- Where a delta is applied, its key images are new and are spent afterwards.
apply-images :
    (d : DeltaState) (s t : BlockChainState)
    → apply d s ≡ some t
    → ((k : ℕ) → spent t k ≡ (has d.keyimages k || spent s k))
      × ((k : ℕ) → has d.keyimages k ≡ true → spent s k ≡ false)
unfolding apply
apply-images d s t h =
    let (u, stored, more) = >>=-eq-some (apply_keyimages d.keyimages s) _ h in
    let (v, pushed, same) = >>=-eq-some (apply_amounts d.block_height d.global_amounts u) _ more in
    (
      λ k.
          ap (λ (w : BlockChainState). spent w k) (sym (some_eq same))
          ∙ ap is_some (
              (apply_spent-keeps d.spent_outputs v).0 k
              ∙ apply_amounts-images d.block_height d.global_amounts u v pushed k)
          ∙ (apply_keyimages-stored d.keyimages s stored).0 k,
      apply_keyimages-free d.keyimages s u stored,
    )

pub both :
    (u t : BlockChainState) (xs ys : List (List ℕ))
    → ◌≡◌ {A = Redone (BlockChainState × List (List ℕ))} (redo_passes (u, xs)) (redo_passes (t, ys))
    → (u ≡ t) × (xs ≡ ys)
both u t xs ys e = (
  ap (λ (x : BlockChainState × List (List ℕ)). x.0) (passes_eq e),
  ap (λ (x : BlockChainState × List (List ℕ)). x.1) (passes_eq e),
)

pub refused_passes :
    {A : Type 0} (b : Bool) (error : RedoError) (n : ℕ) (m : Redone A) {a : A}
    → (if b then redo_fails error n else m) ≡ redo_passes a
    → (b ≡ false) × (m ≡ redo_passes a)
refused_passes false error n m h = (refl, h)
refused_passes true error n m h = cc

module _ (currency : Currency) (check_ring_signature : RingCheck)
    (prefix_hash : Transaction → ℕ) where
  -- What `redo_block` does of a block that it accepts.
  pub redo_block-passed :
      (s : BlockChainState) (block : Block) (info : BlockHeader) (t : BlockChainState)
      (indices : List (List ℕ))
      → redo_block currency check_ring_signature prefix_hash s block info ≡ redo_passes (t, indices)
      → (args : List RingSignatureArg) × (ring_work currency check_ring_signature prefix_hash s
            block info
          ≡ redo_passes args)
        × ((check_sigs currency info && not (all_pass (arg_check check_ring_signature) args))
            ≡ false)
        × (d : DeltaState) × (redo_transactions currency check_ring_signature prefix_hash
              (block.header.base_transaction ∷ block.transactions)
              (block_delta info)
              (reader s)
            ≡ redo_passes (d, indices))
        × (apply d s ≡ some t)
  unfolding redo_block
  redo_block-passed s block info t indices h =
      let work = ring_work currency check_ring_signature prefix_hash s block info in
      let (args, started, passed) = and_redo-passes work _ h in
      let redone =
        redo_transactions currency check_ring_signature prefix_hash
          (block.header.base_transaction ∷ block.transactions) (block_delta info) (reader s) in
      let (r, run, more) = and_redo-passes redone _ passed in
      let (valid, kept) = refused_passes _ input_invalid_signatures 0 _ more in
      let (u, applied, same) = and_redo-passes (or_throw (apply r.0 s)) _ kept in
      let (same_state, same_indices) = both u t r.1 indices same in
      (
        args,
        started,
        valid,
        r.0,
        run ∙ ap (λ (x : List (List ℕ)). redo_passes (r.0, x)) same_indices,
        or_throw-passes _ applied ∙ ap some same_state,
      )

  work_given :
      (s : BlockChainState) (block : Block) (info : BlockHeader) (args : List RingSignatureArg)
      → check_sigs currency info ≡ true
      → ring_work currency check_ring_signature prefix_hash s block info ≡ redo_passes args
      → ring_transactions currency
          (reader s)
          info.height
          info.timestamp
          prefix_hash
          block.transactions
        ≡ redo_passes args
  unfolding ring_work start_work_get_error
  work_given s block info args on started = grind (arith, on, started)

  -- Of a block that `redo_block` accepts: the height after the block's is in the checkpoint zone,
  -- where no ring signature is checked, or each input of its transactions has a signature, a key
  -- image that the state does not have, a ring that is not empty and whose members are outputs of
  -- the state that are not locked, and `check_ring_signature` passes for the keys of these
  -- members. There is one list of global indices for each transaction and one for the coinbase;
  -- and its key images, in the order of its transactions and inputs, are each new when they are
  -- added to those spent before, and together with these are exactly those spent after it.
  pub redo_block-Added :
      (s : BlockChainState) (block : Block) (info : BlockHeader) (t : BlockChainState)
      (indices : List (List ℕ))
      → redo_block currency check_ring_signature prefix_hash s block info ≡ redo_passes (t, indices)
      → ((check_sigs currency info ≡ false)
          ⊎ SoundTransactions currency
              (reader s)
              info.height
              info.timestamp
              (arg_check check_ring_signature)
              prefix_hash
              block.transactions)
        × (length indices ≡ length block.transactions + 1)
        × Added (spent s) (images_of (block.header.base_transaction ∷ block.transactions)) (spent t)
  redo_block-Added s block info t indices h =
      let txs = block.header.base_transaction ∷ block.transactions in
      let (args, started, valid, d, run, applied) = redo_block-passed s block info t indices h in
      let (added, count) =
        redo_transactions-Added currency check_ring_signature prefix_hash txs (block_delta info)
          (reader s) (d, indices) run in
      let (images, apart) = apply-images d s t applied in
      (
        elim (Bool-cases (check_sigs currency info)) [
          | inr off ↦ inl off
          | inl on ↦ inr (
              ring_transactions-Sound currency (reader s) info.height info.timestamp
                (arg_check check_ring_signature) prefix_hash block.transactions args
                (work_given s block info args on started) (ground (arith, on, valid)))
        ],
        count ∙ omega arith,
        Added-cong (λ k. false || spent s k) (spent s) (λ k. has d.keyimages k || spent s k)
            (spent t) (images_of txs) (λ k. refl) (λ k. images k)
            (Added-beside (λ k. false) (has d.keyimages) (spent s) (images_of txs) apart added),
      )
