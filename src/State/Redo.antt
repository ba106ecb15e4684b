-- ===== src/State/Redo.antt =====
-- Core/BlockChainState.cpp: `redo_transaction_get_error` and `redo_block`. `check_ring_signature` of
-- crypto/crypto.cpp and the hash of a transaction's prefix are parameters. The index of a block's outputs
-- is answered, not stored.
pub mod Images
pub mod Holds
pub mod Given
pub mod Content
pub mod Inverse
pub mod Throws
pub mod DoubleSpend
pub mod Spent
pub mod Whole
use Prim.Native.Nat.{max}
use naza.Common.{ℕ, ◌+◌, ◌%◌, ◌^◌, List, [], ◌∷◌, Option, none, some, get_elem?}
use naza.Common.{Bool, false, not, if◌then◌else◌}
use naza.Transaction.{TransactionInput, coinbase_input, key_input, TransactionOutput, Transaction}
use naza.Semantic.{get_key, is_empty}
use naza.Currency.{Currency, is_transaction_spend_time_unlocked}
use naza.Block.{Block, BlockHeader}
use naza.State.{BlockChainState, IBlockChainState, reader}
use naza.State.Delta.{DeltaState, store_keyimage, read_keyimage, push_amount_output}
use naza.State.Delta.{next_global_index_for_amount, read_amount_output, spend_output}
use naza.State.Apply.{apply}

-- The strings that `redo_transaction_get_error` returns.
pub data RedoError : Type 0 where
  input_keyimage_already_spent : RedoError
  input_unknown_type : RedoError
  input_invalid_global_index : RedoError
  input_spend_locked_out : RedoError
  input_corrupted_signatures : RedoError
  input_invalid_signatures : RedoError

-- An exception, an error with the conflicting height, or a result.
pub data Redone (A : Type 0) : Type 0 where
  redo_throws : Redone A
  redo_fails : (error : RedoError) (conflict_height : ℕ) → Redone A
  redo_passes : (value : A) → Redone A

abbrev pub and_redo : {A B : Type 0} → Redone A → (A → Redone B) → Redone B
and_redo redo_throws f = redo_throws
and_redo (redo_fails error conflict_height) f = redo_fails error conflict_height
and_redo (redo_passes value) f = f value

abbrev pub or_throw : {A : Type 0} → Option A → Redone A
or_throw none = redo_throws
or_throw (some value) = redo_passes value

-- What the delta is for its own children: `this` as an `IBlockChainState`.
abbrev pub delta_reader : DeltaState → IBlockChainState → IBlockChainState
delta_reader d parent_state = record {
  read_keyimage = λ k. read_keyimage d parent_state k;
  next_global_index_for_amount = λ a. next_global_index_for_amount d parent_state a;
  read_amount_output = λ a i. read_amount_output d parent_state a i;
}

abbrev pub empty_delta : DeltaState → DeltaState
empty_delta d = record {
  keyimages = [];
  global_amounts = [];
  spent_outputs = [];
  block_height = d.block_height;
  unlock_timestamp = d.unlock_timestamp;
}

-- The relative positions of the ring's members, summed.
abbrev pub sum_indexes : ℕ → List ℕ → List ℕ
sum_indexes sum [] = []
sum_indexes sum (x ∷ xs) = (sum + x) % 2 ^ 32 ∷ sum_indexes ((sum + x) % 2 ^ 32) xs

-- The signature that `check_ring_signature` gets, its answer and `key_corrupted`.
abbrev pub RingCheck : Type 0
RingCheck = ℕ → ℕ → List ℕ → List ℕ → Bool × Bool

-- `if (in.output_indexes.size() == 1) tx_delta.spend_output(in.amount, in.output_indexes[0]);`
abbrev pub spend_single : DeltaState → ℕ → List ℕ → DeltaState
spend_single t amount [] = t
spend_single t amount (x ∷ []) = spend_output t amount x
spend_single t amount (x ∷ y ∷ rest) = t

-- The loop over the outputs; the delta and the global indices.
unfoldable pub redo_outputs :
    ℕ → List TransactionOutput → DeltaState → IBlockChainState → DeltaState × List ℕ
redo_outputs unlock_time [] t parent_state = (t, [])
redo_outputs unlock_time (output ∷ outputs) t parent_state =
    let pushed =
      push_amount_output t parent_state output.amount unlock_time (get_key output.target) in
    let rest = redo_outputs unlock_time outputs pushed.0 parent_state in (rest.0, pushed.1 ∷ rest.1)

-- `tx_delta.apply(delta_state)`
unfoldable pub give_keyimages : List (ℕ × ℕ) → DeltaState → Option DeltaState
give_keyimages [] d = some d
give_keyimages ((key_image, height) ∷ rest) d = elim (store_keyimage d key_image height) [
  | none ↦ none
  | some e ↦ give_keyimages rest e
]

unfoldable pub give_outputs : ℕ → List (ℕ × ℕ) → DeltaState → IBlockChainState → DeltaState
give_outputs amount [] d parent_state = d
give_outputs amount ((unlock_time, pk) ∷ rest) d parent_state =
    give_outputs amount rest (push_amount_output d parent_state amount unlock_time pk).0
      parent_state

unfoldable pub give_amounts : List (ℕ × List (ℕ × ℕ)) → DeltaState → IBlockChainState → DeltaState
give_amounts [] d parent_state = d
give_amounts ((amount, outputs) ∷ rest) d parent_state =
    give_amounts rest (give_outputs amount outputs d parent_state) parent_state

unfoldable pub give_spent : List (ℕ × ℕ) → DeltaState → DeltaState
give_spent [] d = d
give_spent ((amount, global_index) ∷ rest) d = give_spent rest (spend_output d amount global_index)

unfoldable pub apply_to_delta : DeltaState → DeltaState → IBlockChainState → Option DeltaState
apply_to_delta t d parent_state = elim (give_keyimages t.keyimages d) [
  | none ↦ none
  | some e ↦ some (give_spent t.spent_outputs (give_amounts t.global_amounts e parent_state))
]

module _ (currency : Currency) where
  -- The keys of the ring's members, and the highest of their heights.
  unfoldable pub output_keys : DeltaState → IBlockChainState → ℕ → List ℕ → ℕ → Redone (List ℕ × ℕ)
  output_keys t parent_state amount [] conflict_height = redo_passes ([], conflict_height)
  output_keys t parent_state amount (global_index ∷ global_indexes) conflict_height =
      elim (read_amount_output t parent_state amount global_index) [
        | none ↦ redo_fails input_invalid_global_index currency.max_block_height
        | some unp ↦
            let height = max conflict_height unp.height in
            let unlocked =
              is_transaction_spend_time_unlocked currency unp.unlock_time t.block_height
                t.unlock_timestamp in
            let rest = output_keys t parent_state amount global_indexes height in
            if not unlocked
            then redo_fails input_spend_locked_out height
            else and_redo rest (λ r. redo_passes (unp.public_key ∷ r.0, r.1))
      ]

  module _ (check_ring_signature : RingCheck) where
    -- What is checked of an input where `check_sigs` is set; a signature out of range throws here.
    unfoldable pub check_key_input :
        ℕ → List (List ℕ) → ℕ → DeltaState → IBlockChainState → ℕ → List ℕ → ℕ → ℕ → Redone ℕ
    check_key_input tx_prefix_hash signatures input_index t parent_state amount output_indexes
          key_image conflict_height =
        elim (read_keyimage t parent_state key_image) [
          | some height ↦ redo_fails input_keyimage_already_spent height
          | none ↦
              if is_empty output_indexes
              then redo_fails input_unknown_type conflict_height
              else and_redo
                  (output_keys t parent_state amount (sum_indexes 0 output_indexes) conflict_height)
                  (λ keys. and_redo (or_throw (get_elem? signatures input_index)) (λ signature.
                    let checked = check_ring_signature tx_prefix_hash key_image keys.0 signature in
                    if checked.0
                    then redo_passes keys.1
                    else if checked.1
                    then redo_fails input_corrupted_signatures keys.1
                    else redo_fails input_invalid_signatures keys.1))
        ]

    -- The loop over the inputs; the delta and the conflicting height.
    unfoldable pub redo_inputs :
        Bool
        → ℕ
        → List (List ℕ)
        → ℕ
        → List TransactionInput
        → DeltaState
        → IBlockChainState
        → ℕ
        → Redone (DeltaState × ℕ)
    redo_inputs check_sigs tx_prefix_hash signatures input_index [] t parent_state conflict_height =
        redo_passes (t, conflict_height)
    redo_inputs check_sigs tx_prefix_hash signatures input_index
          (coinbase_input block_index ∷ inputs) t parent_state conflict_height =
        redo_inputs check_sigs tx_prefix_hash signatures (input_index + 1) inputs t parent_state
          conflict_height
    redo_inputs check_sigs tx_prefix_hash signatures input_index
          (key_input amount output_indexes key_image ∷ inputs) t parent_state conflict_height =
        and_redo
          (if check_sigs
            then check_key_input tx_prefix_hash signatures input_index t parent_state amount
                output_indexes key_image conflict_height
            else redo_passes conflict_height)
          (λ height.
            and_redo
              (or_throw
                (store_keyimage (spend_single t amount output_indexes) key_image t.block_height))
              (λ u.
                redo_inputs check_sigs tx_prefix_hash signatures (input_index + 1) inputs u
                  parent_state height))

    module _ (get_transaction_prefix_hash : Transaction → ℕ) where
      -- The delta, the global indices of the outputs and the conflicting height.
      unfoldable pub redo_transaction_get_error :
          Transaction → DeltaState → IBlockChainState → Bool → Redone (DeltaState × List ℕ × ℕ)
      redo_transaction_get_error transaction delta_state parent_state check_sigs =
          let own = delta_reader delta_state parent_state in
          and_redo
            (redo_inputs check_sigs (get_transaction_prefix_hash transaction) transaction.signatures
              0 transaction.inputs (empty_delta delta_state) own 0)
            (λ r.
              let pushed = redo_outputs transaction.unlock_time transaction.outputs r.0 own in
              and_redo (or_throw (apply_to_delta pushed.0 delta_state parent_state))
                (λ d. redo_passes (d, pushed.1, r.1)))

      -- The transactions of a block without their signatures, which the ring checker checks.
      unfoldable pub redo_transactions :
          List Transaction → DeltaState → IBlockChainState → Redone (DeltaState × List (List ℕ))
      redo_transactions [] delta_state parent_state = redo_passes (delta_state, [])
      redo_transactions (transaction ∷ transactions) delta_state parent_state =
          and_redo (redo_transaction_get_error transaction delta_state parent_state false) (λ r.
            and_redo (redo_transactions transactions r.0 parent_state)
              (λ rest. redo_passes (rest.0, r.1 ∷ rest.1)))
