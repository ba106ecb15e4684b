-- ===== src/Pool/Added.antt =====
-- `add_transaction` as a whole: the memory pool keeps its invariant, whatever the answer is.
use naza.Common.{ℕ}
use naza.Common.{◌≡◌, refl, ap, ◌∙◌, ◌≢◌, ◌⊎◌, inl, inr}
use naza.Common.{Bool, true, false, ◌||◌, Bool-cases}
use naza.Common.{Option, none, some, List, []}
use naza.Transaction.{Transaction}
use naza.State.{is_some}
use naza.State.Store.{is_some-false}
use naza.Pool.{PoolTransaction, fee_per_byte, MemoryPool, find_tx}
use naza.Pool.Valid.{has_image, IsPool}
use naza.Semantic.{Reason, Checked, fails, passes, validate_semantic, get_tx_fee}
use naza.Semantic.Sound.{HasWords, validate_semantic_sound}
use naza.Pool.Calm.{redo_transaction-IsCalm}
use naza.Currency.{Currency}
use naza.State.{BlockChainState, reader}
use naza.State.Delta.{DeltaState}
use naza.State.Redo.{
  RedoError, Redone, redo_throws, redo_fails, redo_passes, RingCheck, redo_transaction_get_error,
}
use naza.State.Redo.Images.{has, images_in}
use naza.State.Redo.DoubleSpend.{redo_transaction-Added}
use naza.State.Redo.Holds.{Holds}
use naza.State.Redo.Content.{redo_transaction-Holds}
use naza.State.Built.Content.{add_images}
use naza.Pool.{
  AddTransactionResult, ban, broadcast_all, already_in_pool, increase_fee, failed_to_redo,
  output_already_spent, fee_or_zero, spent_in_chain, too_cheap, judge, add_transaction,
}
use naza.Pool.TakenIn.{add_images-has, Added-Distinct, loses_first-some, Answered, take_in-IsPool}

Redone-cases :
    {A : Type 0} (m : Redone A)
    → (m ≡ redo_throws)
      ⊎ (((error : RedoError) × (n : ℕ) × (m ≡ redo_fails error n))
          ⊎ ((a : A) × (m ≡ redo_passes a)))
Redone-cases redo_throws = inl refl
Redone-cases (redo_fails error n) = inr (inl (error, n, refl))
Redone-cases (redo_passes a) = inr (inr (a, refl))

Checked-cases : (m : Checked) → ((r : Reason) × (m ≡ fails r)) ⊎ ((n : ℕ) × (m ≡ passes n))
Checked-cases (fails r) = inl (r, refl)
Checked-cases (passes n) = inr (n, refl)

refused :
    (p : MemoryPool) (tid : ℕ) (own : PoolTransaction) (result : AddTransactionResult)
    (m : Option (AddTransactionResult × MemoryPool))
    → IsPool p
    → result ≢ broadcast_all
    → m ≡ some (result, p)
    → Answered m p tid own
refused p tid own result m v ne h = (result, p, h, v, inr (ne, λ t o e. e))

abbrev pub fresh_delta : ℕ → ℕ → DeltaState
fresh_delta unlock_height unlock_timestamp = record {
  keyimages = [];
  global_amounts = [];
  spent_outputs = [];
  block_height = unlock_height;
  unlock_timestamp = unlock_timestamp;
}

module _ (currency : Currency) (check_ring_signature : RingCheck) (prefix_hash : Transaction → ℕ)
    (key_isvalid : ℕ → Bool) where
  judge-IsPool :
      (p : MemoryPool) (s : BlockChainState) (tid : ℕ) (own : PoolTransaction) (h t : ℕ)
      (check_sigs : Bool)
      → IsPool p
      → find_tx p.tx tid ≡ none
      → HasWords own.tx
      → Answered
          (judge currency check_ring_signature prefix_hash key_isvalid p s tid own h t check_sigs)
          p
          tid
          own
  unfolding judge
  judge-IsPool p s tid own h t check_sigs v free words =
      let delta = fresh_delta h t in
      let redo =
        redo_transaction_get_error currency check_ring_signature prefix_hash own.tx delta (reader s)
          check_sigs in
      elim (Bool-cases (spent_in_chain s own.tx.inputs)) [
        | inl b ↦ refused p tid own output_already_spent _ v (λ e. cc e) (rw (judge, b) refl)
        | inr b ↦ elim (Checked-cases (validate_semantic key_isvalid false own.tx check_sigs)) [
          | inl (reason, bad) ↦ refused p tid own ban _ v (λ e. cc e) (rw (judge, b, bad) refl)
          | inr (fee, good) ↦ elim (Redone-cases redo) [
            | inl throws ↦
                let valid = validate_semantic_sound key_isvalid own.tx check_sigs fee words good in
                absurd (
                  redo_transaction-IsCalm currency check_ring_signature prefix_hash own.tx delta
                    (reader s) check_sigs refl valid.images_differ valid.signed throws)
            | inr (inl (error, n, failed)) ↦
                refused p tid own failed_to_redo _ v (λ e. cc e) (rw (judge, b, good, failed) refl)
            | inr (inr (r, passed)) ↦
                let start : Holds delta h (λ k. none) (λ a. []) [] = record {
                  found = λ k. refl;
                  pushed = λ a. refl;
                  spent = refl;
                  ordered = tt;
                  unique = tt;
                  block_height = refl;
                } in
                let held =
                  redo_transaction-Holds currency check_ring_signature prefix_hash own.tx delta
                    (reader s) check_sigs r h (λ k. none) (λ a. []) [] start passed in
                let added =
                  redo_transaction-Added currency check_ring_signature prefix_hash own.tx delta
                    (reader s) check_sigs r passed in
                rw (judge, b, good, passed)
                  (take_in-IsPool p tid own r.0.keyimages v free held.unique
                    (λ k. images k (held.found k))
                    (Added-Distinct (λ k. false) (has r.0.keyimages) own.tx.inputs added))
          ]
        ]
      ]
    where
      or_false : (c : Bool) → (c || false) ≡ c
      or_false true = refl
      or_false false = refl

      images :
          (k : ℕ) {m : Option ℕ}
          → m ≡ add_images h (λ j. none) (images_in own.tx.inputs) k
          → is_some m ≡ has_image own.tx.inputs k
      images k e =
          ap is_some e
          ∙ add_images-has h (λ j. none) own.tx.inputs k
          ∙ or_false (has_image own.tx.inputs k)

  -- For a transaction with 64-bit amounts, `add_transaction` on a memory pool whose indices agree
  -- throws no exception, and the indices of the new pool agree: the key images and the fees are
  -- exactly those of its transactions, and the total size is the sum of their sizes. Where the
  -- answer is to broadcast, the pool holds nothing but the transaction and what it held before,
  -- and it is not above its size, or would be below it without the first of its cheapest
  -- transactions; with any other answer it holds nothing that it did not hold before.
  pub add_transaction-IsPool :
      (p : MemoryPool) (s : BlockChainState) (tid : ℕ) (tx : Transaction) (binary_tx : List ℕ)
      (unlock_height unlock_timestamp : ℕ) (check_sigs : Bool)
      → IsPool p
      → HasWords tx
      → Answered
          (add_transaction currency check_ring_signature prefix_hash key_isvalid p s tid tx
            binary_tx unlock_height unlock_timestamp check_sigs)
          p
          tid
          (record {
            tx = tx;
            binary_tx = binary_tx;
            fee = fee_or_zero (get_tx_fee tx);
            timestamp = 0;
          })
  unfolding add_transaction
  add_transaction-IsPool p s tid tx binary_tx h t check_sigs v words =
      let own : PoolTransaction = record {
        tx = tx;
        binary_tx = binary_tx;
        fee = fee_or_zero (get_tx_fee tx);
        timestamp = 0;
      } in
      let (lost, first) = loses_first-some p tid (fee_per_byte own) tx.inputs v in
      elim (Bool-cases (is_some (find_tx p.tx tid))) [
        | inl there ↦
            refused p tid own already_in_pool _ v (λ e. cc e) (rw (add_transaction, there) refl)
        | inr free ↦ elim (Bool-cases (too_cheap p tid (fee_per_byte own))) [
          | inl cheap ↦
              refused p tid own increase_fee _ v (λ e. cc e)
                (rw (add_transaction, free, cheap) refl)
          | inr dear ↦ elim (Bool-cases lost) [
            | inl b ↦
                refused p tid own increase_fee _ v (λ e. cc e)
                  (rw (add_transaction, free, dear, first, b) refl)
            | inr b ↦
                rw (add_transaction, free, dear, first, b)
                  (judge-IsPool p s tid own h t check_sigs v (is_some-false (find_tx p.tx tid) free)
                    words)
          ]
        ]
      ]
