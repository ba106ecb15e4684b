-- ===== src/State/Apply.antt =====
-- `DeltaState::apply`, `undo_transaction` and `undo_block`.
use naza.Common.{ℕ}
use naza.Common.{true, false}
use naza.Common.{Option, some, List, [], ◌∷◌}
use naza.Common.Options.{◌>>=◌}
use naza.Transaction.{TransactionInput, coinbase_input, key_input, TransactionOutput, Transaction}
use naza.Semantic.{get_key}
use naza.State.{BlockChainState}
use naza.State.{
  store_keyimage, delete_keyimage, push_amount_output, pop_amount_output, spend_output,
}
use naza.State.Delta.{DeltaState}

unfoldable pub apply_keyimages : List (ℕ × ℕ) → BlockChainState → Option BlockChainState
apply_keyimages [] s = some s
apply_keyimages ((key_image, height) ∷ rest) s =
    store_keyimage s key_image height >>= λ t. apply_keyimages rest t

unfoldable pub apply_outputs : ℕ → ℕ → List (ℕ × ℕ) → BlockChainState → Option BlockChainState
apply_outputs height amount [] s = some s
apply_outputs height amount ((unlock_time, pk) ∷ rest) s =
    push_amount_output s amount unlock_time height pk >>= λ pushed.
    apply_outputs height amount rest pushed.0

unfoldable pub apply_amounts :
    ℕ → List (ℕ × List (ℕ × ℕ)) → BlockChainState → Option BlockChainState
apply_amounts height [] s = some s
apply_amounts height ((amount, outputs) ∷ rest) s =
    apply_outputs height amount outputs s >>= λ t. apply_amounts height rest t

unfoldable pub apply_spent : List (ℕ × ℕ) → BlockChainState → BlockChainState
apply_spent [] s = s
apply_spent ((amount, global_index) ∷ rest) s =
    apply_spent rest (spend_output s amount global_index true)

unfoldable pub apply : DeltaState → BlockChainState → Option BlockChainState
apply d s = apply_keyimages d.keyimages s >>= λ t.
    apply_amounts d.block_height d.global_amounts t >>= λ u. some (apply_spent d.spent_outputs u)

-- The outputs of a transaction are popped and its inputs are freed, both from the last to the first.
unfoldable pub undo_outputs : ℕ → List TransactionOutput → BlockChainState → Option BlockChainState
undo_outputs unlock_time [] s = some s
undo_outputs unlock_time (output ∷ outputs) s = undo_outputs unlock_time outputs s >>= λ t.
    pop_amount_output t output.amount unlock_time (get_key output.target)

-- `if (in.output_indexes.size() == 1) spend_output(in.amount, in.output_indexes[0], false);`
unfoldable pub unspend : ℕ → List ℕ → BlockChainState → BlockChainState
unspend amount [] s = s
unspend amount (x ∷ []) s = spend_output s amount x false
unspend amount (x ∷ y ∷ rest) s = s

unfoldable pub undo_inputs : List TransactionInput → BlockChainState → Option BlockChainState
undo_inputs [] s = some s
undo_inputs (coinbase_input block_index ∷ inputs) s = undo_inputs inputs s
undo_inputs (key_input amount output_indexes key_image ∷ inputs) s = undo_inputs inputs s >>= λ t.
    delete_keyimage t key_image >>= λ u. some (unspend amount output_indexes u)

unfoldable pub undo_transaction : BlockChainState → Transaction → Option BlockChainState
undo_transaction s tx = undo_outputs tx.unlock_time tx.outputs s >>= λ t. undo_inputs tx.inputs t

-- `undo_block`: the transactions from the last to the first, then the coinbase.
unfoldable pub undo_transactions : List Transaction → BlockChainState → Option BlockChainState
undo_transactions [] s = some s
undo_transactions (tx ∷ rest) s = undo_transactions rest s >>= λ t. undo_transaction t tx

unfoldable pub undo_block :
    BlockChainState → Transaction → List Transaction → Option BlockChainState
undo_block s base_transaction transactions =
    undo_transactions transactions s >>= λ t. undo_transaction t base_transaction
