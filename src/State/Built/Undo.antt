-- ===== src/State/Built/Undo.antt =====
-- `undo_block` takes back what a block added to the state.
use mathlib.Core.Path.{subst}
use naza.Common.{ℕ}
use naza.Common.{◌≡◌, refl, ap, ◌∙◌}
use naza.Common.{false}
use naza.Common.{Option, none, some, List, [], ◌∷◌}
use naza.Common.Options.{◌>>=◌}
use naza.Transaction.{TransactionInput, coinbase_input, key_input, TransactionOutput, Transaction}
use naza.Semantic.{get_key}
use naza.State.{BlockChainState, put}
use naza.State.{delete_keyimage, pop_amount_output}
use naza.State.Store.{IsFilled}
use naza.State.Apply.{
  undo_outputs, unspend, undo_inputs, undo_transaction, undo_transactions, undo_block,
}
use naza.State.Redo.Images.{images_in, images_of}
use naza.State.Built.{Images, Outputs, Marks, built, built-nothing, add_output, Room}
use naza.State.Built.Step.{delete_keyimage-built, pop_amount_output-built, spend_output-built}
use naza.State.Built.Content.{
  add_images, add_outputs, add_marks, outputs_in, single, singles_in, outputs_made, singles_of,
  after_block, New, Spends, Room-before,
}
use naza.State.Built.Content.{
  add_images-append, add_outputs-append, add_marks-append, New-append, Spends-append,
}

undo_outputs-built :
    (unlock_time : ℕ) (txs : List TransactionOutput) (s : BlockChainState) (height : ℕ)
    (images : Images) (outputs : Outputs) (marks : Marks)
    → IsFilled s
    → Room s (add_outputs outputs (outputs_in unlock_time txs))
    → undo_outputs unlock_time txs
        (built s height images (add_outputs outputs (outputs_in unlock_time txs)) marks)
      ≡ some (built s height images outputs marks)
unfolding undo_outputs
undo_outputs-built unlock_time [] s height images outputs marks f room = refl
undo_outputs-built unlock_time (output ∷ rest) s height images outputs marks f room =
    let key = get_key output.target in
    let more = add_output outputs output.amount (unlock_time, key) in
    let less = Room-before s more (outputs_in unlock_time rest) room in
    ap
      (λ (m : Option BlockChainState). m >>= λ t. pop_amount_output t output.amount unlock_time key)
      (undo_outputs-built unlock_time rest s height images more marks f room)
    ∙ pop_amount_output-built s height images outputs marks output.amount unlock_time key f less

unspend-built :
    (amount : ℕ) (xs : List ℕ) (s : BlockChainState) (height : ℕ) (images : Images)
    (outputs : Outputs) (marks : Marks)
    → Spends s marks (single amount xs)
    → unspend amount xs (built s height images outputs (add_marks marks (single amount xs)))
      ≡ built s height images outputs marks
unfolding unspend
unspend-built amount [] s height images outputs marks h = refl
unspend-built amount (x ∷ []) s height images outputs marks h =
    (spend_output-built s height images outputs marks amount x h.0 h.1).1
unspend-built amount (x ∷ y ∷ rest) s height images outputs marks h = refl

undo_inputs-built :
    (inputs : List TransactionInput) (s : BlockChainState) (height : ℕ) (images : Images)
    (outputs : Outputs) (marks : Marks)
    → New s height images (images_in inputs)
    → Spends s marks (singles_in inputs)
    → undo_inputs inputs (
        built s height
          (add_images height images (images_in inputs))
          outputs
          (add_marks marks (singles_in inputs)))
      ≡ some (built s height images outputs marks)
unfolding undo_inputs
undo_inputs-built [] s height images outputs marks new h = refl
undo_inputs-built (coinbase_input block_index ∷ inputs) s height images outputs marks new h =
    undo_inputs-built inputs s height images outputs marks new h
undo_inputs-built (key_input amount output_indexes key_image ∷ inputs) s height images outputs marks
      (new, rest) h =
    let (mine, others) =
      Spends-append s marks (single amount output_indexes) (singles_in inputs) h in
    let more = put images key_image (some height) in
    let marked = add_marks marks (single amount output_indexes) in
    let step : BlockChainState → Option BlockChainState =
      λ t. delete_keyimage t key_image >>= λ u. some (unspend amount output_indexes u) in
    rw (add_marks-append marks (single amount output_indexes) (singles_in inputs)) (
      ap (λ (m : Option BlockChainState). m >>= step)
        (undo_inputs-built inputs s height more outputs marked rest others))
    ∙ ap (λ (m : Option BlockChainState). m >>= λ u. some (unspend amount output_indexes u))
        (delete_keyimage-built s height images outputs marked key_image new)
    ∙ ap some (unspend-built amount output_indexes s height images outputs marks mine)

undo_transaction-built :
    (tx : Transaction) (s : BlockChainState) (height : ℕ) (images : Images) (outputs : Outputs)
    (marks : Marks)
    → IsFilled s
    → Room s (add_outputs outputs (outputs_in tx.unlock_time tx.outputs))
    → New s height images (images_in tx.inputs)
    → Spends s marks (singles_in tx.inputs)
    → undo_transaction
        (built s height
          (add_images height images (images_in tx.inputs))
          (add_outputs outputs (outputs_in tx.unlock_time tx.outputs))
          (add_marks marks (singles_in tx.inputs)))
        tx
      ≡ some (built s height images outputs marks)
unfolding undo_transaction
undo_transaction-built tx s height images outputs marks f room new h =
    ap (λ (m : Option BlockChainState). m >>= λ t. undo_inputs tx.inputs t)
      (undo_outputs-built tx.unlock_time tx.outputs s height
        (add_images height images (images_in tx.inputs)) outputs
        (add_marks marks (singles_in tx.inputs)) f room)
    ∙ undo_inputs-built tx.inputs s height images outputs marks new h

undo_transactions-built :
    (txs : List Transaction) (s : BlockChainState) (height : ℕ) (images : Images)
    (outputs : Outputs) (marks : Marks)
    → IsFilled s
    → Room s (add_outputs outputs (outputs_made txs))
    → New s height images (images_of txs)
    → Spends s marks (singles_of txs)
    → undo_transactions txs (
        built s height
          (add_images height images (images_of txs))
          (add_outputs outputs (outputs_made txs))
          (add_marks marks (singles_of txs)))
      ≡ some (built s height images outputs marks)
unfolding undo_transactions
undo_transactions-built [] s height images outputs marks f room new h = refl
undo_transactions-built (tx ∷ txs) s height images outputs marks f room new h =
    let mine = outputs_in tx.unlock_time tx.outputs in
    let split = add_outputs-append outputs mine (outputs_made txs) in
    let room' = subst (Room s) split room in
    let (new', news) = New-append s height images (images_in tx.inputs) (images_of txs) new in
    let (spends, more) = Spends-append s marks (singles_in tx.inputs) (singles_of txs) h in
    let images' = add_images height images (images_in tx.inputs) in
    let outputs' = add_outputs outputs mine in
    let marks' = add_marks marks (singles_in tx.inputs) in
    rw
      (
        add_images-append height images (images_in tx.inputs) (images_of txs),
        split,
        add_marks-append marks (singles_in tx.inputs) (singles_of txs),
      )
      (ap (λ (m : Option BlockChainState). m >>= λ t. undo_transaction t tx)
        (undo_transactions-built txs s height images' outputs' marks' f room' news more))
    ∙ undo_transaction-built tx s height images outputs marks f
        (Room-before s outputs' (outputs_made txs) room') new' spends

-- Where a block's outputs have an index to get, its key images are new and the outputs it marks
-- were not spent, to undo the block gives back the state before it.
pub undo_block-after_block :
    (s : BlockChainState) (height : ℕ) (base : Transaction) (txs : List Transaction)
    → IsFilled s
    → Room s (add_outputs (λ a. []) (outputs_made (base ∷ txs)))
    → New s height (λ k. none) (images_of (base ∷ txs))
    → Spends s (λ a i. false) (singles_of (base ∷ txs))
    → undo_block (after_block s height (base ∷ txs)) base txs ≡ some s
unfolding undo_block undo_transactions
undo_block-after_block s height base txs f room new h =
    undo_transactions-built (base ∷ txs) s height (λ k. none) (λ a. []) (λ a i. false) f room new h
    ∙ ap some (built-nothing s height f)
