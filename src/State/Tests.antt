-- ===== src/State/Tests.antt =====
-- The theorems about the chain's state at a small state and a small delta.
use naza.Common.{ℕ}
use naza.Common.{◌≡◌, ◌⊎◌, refl, arith}
use naza.Common.{false}
use naza.Common.{none, some, [], ◌∷◌}
use naza.State.{UnlockTimePublickKeyHeightSpent, BlockChainState, put, is_some, reader}
use naza.State
use naza.State.{store_keyimage, delete_keyimage, pop_amount_output, spend_output}
use naza.State.Store.{Same, IsFilled, pop-push_amount_output}
use naza.State.Delta.{
  DeltaState, push_amount_output, read_amount_output, read_keyimage, next_global_index_for_amount,
}
use naza.State.Apply.{apply_keyimages, apply_outputs, apply_amounts, apply_spent, apply}
use naza.State.Refines.{apply_refines}
use naza.Common.{true, List, length, ◌+◌}
use naza.Transaction.{Transaction, coinbase_input, key_input, key_output}
use naza.Currency.{make_currency, is_transaction_spend_time_unlocked}
use naza.Block.{Block, BlockHeader}
use naza.BlockChain.AddBlock.{empty_header}
use naza.State.Delta
use naza.State.Redo.{
  redo_inputs, redo_outputs, give_keyimages, give_outputs, give_amounts, give_spent,
}
use naza.State.Redo.{apply_to_delta, redo_transaction_get_error, redo_transactions, redo_passes}
use naza.State.Redo.Whole.{check_sigs, arg_check, ring_work, redo_block}
use naza.RingChecker.{start_work_get_error, ring_transactions, ring_inputs, ring_arg, ring_keys}
use naza.RingChecker.Sound.{SoundTransactions}
use naza.Currency.Checkpoints.{is_in_sw_checkpoint_zone}
use naza.State.Apply.{undo_block}
use naza.State.Redo.{Redone, redo_throws, redo_fails}
use naza.State.Built.{built, add_output, built-IsFilled}
use naza.State.Built.Content.{after_block}
use naza.State.Redo.Inverse.{block_transactions, HasRoom, SpendsOnce}
use naza.State.Redo.Throws.{redo_block-double_spend}
use naza.State.Redo.Inverse.{redo_block-after_block, undo_block-redo_block}
use naza.State.Redo.Images.{Added, images_of}
use naza.State.Redo.Spent.{spent, redo_block-Added}

abbrev empty : BlockChainState
empty = record { keyimages = λ k. none; amount_outputs = λ a i. none; next_gi_for_amount = λ a. 0 }

empty-IsFilled : IsFilled empty
empty-IsFilled = record { filled = λ a i. ground arith; word = λ a. omega arith }

pop-push_amount_output_example :
    (t : BlockChainState) × (State.push_amount_output empty 70 0 5 9 ≡ some (t, 0))
    × (t.amount_outputs 70 0
        ≡ some (record { unlock_time = 0; public_key = 9; height = 5; spent = false }))
    × IsFilled t
    × (u : BlockChainState) × (pop_amount_output t 70 0 9 ≡ some u)
    × Same u empty
pop-push_amount_output_example = pop-push_amount_output empty 70 0 5 9 empty-IsFilled (omega arith)

abbrev delta : DeltaState
delta = record {
  keyimages = (11, 5) ∷ [];
  global_amounts = (70, (0, 9) ∷ (0, 8) ∷ []) ∷ [];
  spent_outputs = [];
  block_height = 5;
  unlock_timestamp = 100;
}

abbrev one_output : DeltaState
one_output = record delta { global_amounts = (70, (0, 9) ∷ []) ∷ [] }

abbrev applied : BlockChainState
applied = elim (apply delta empty) [ none ↦ empty | some t ↦ t ]

delta_applies : apply delta empty ≡ some applied
unfolding apply apply_keyimages apply_amounts apply_outputs apply_spent store_keyimage
    State.push_amount_output
delta_applies = refl

apply_refines_example :
    ((k : ℕ) → is_some (applied.keyimages k) ≡ is_some (read_keyimage delta (reader empty) k))
    × ((a : ℕ) → applied.next_gi_for_amount a ≡ next_global_index_for_amount delta (reader empty) a)
apply_refines_example = apply_refines delta empty (λ a. omega arith) (tt, tt) delta_applies

abbrev base : Transaction
base = record {
  version = 1;
  unlock_time = 13;
  inputs = coinbase_input 3 ∷ [];
  outputs = record { amount = 5; target = key_output 9 } ∷ [];
  extra = [];
  signatures = [];
}

abbrev spending : Transaction
spending = record {
  version = 1;
  unlock_time = 0;
  inputs = key_input 70 (0 ∷ []) 11 ∷ [];
  outputs = [];
  extra = [];
  signatures = [];
}

abbrev small_block : Block
small_block = record {
  header = record {
    major_version = 1;
    minor_version = 0;
    nonce = 0;
    timestamp = 0;
    previous_block_hash = 1;
    parent_block_major_version = 0;
    base_transaction = base;
    transaction_hashes = 21 ∷ [];
  };
  transactions = spending ∷ [];
}

abbrev small_header : BlockHeader
small_header = record empty_header { height = 3; hash = 2 }

abbrev redone : BlockChainState
redone = record {
  keyimages = put empty.keyimages 11 (some 3);
  amount_outputs = put empty.amount_outputs 5 (
      put (empty.amount_outputs 5) 0
        (some (record { unlock_time = 13; public_key = 9; height = 3; spent = false })));
  next_gi_for_amount = put empty.next_gi_for_amount 5 1;
}

redone_run :
    redo_block
      (make_currency false)
      (λ hash image keys signature. (true, false))
      (λ tx. 0)
      empty
      small_block
      small_header
    ≡ redo_passes (redone, (0 ∷ []) ∷ [] ∷ [])
unfolding redo_block ring_work check_sigs is_in_sw_checkpoint_zone redo_transactions
    redo_transaction_get_error redo_inputs redo_outputs give_keyimages give_outputs give_amounts
    give_spent apply_to_delta apply apply_keyimages apply_outputs apply_amounts apply_spent
    State.store_keyimage State.push_amount_output State.spend_output Delta.store_keyimage
    Delta.push_amount_output Delta.spend_output Delta.next_global_index_for_amount
redone_run = refl

-- A state with one output of the amount 70, which the block below spends.
abbrev funded : BlockChainState
funded = built empty 1 (λ k. none) (add_output (λ a. []) 70 (0, 8)) (λ a i. false)

funded-IsFilled : IsFilled funded
funded-IsFilled =
    built-IsFilled empty 1 (λ k. none) (add_output (λ a. []) 70 (0, 8)) (λ a i. false)
      empty-IsFilled (λ a. ground arith)

abbrev block_run : Redone (BlockChainState × List (List ℕ))
block_run =
    redo_block (make_currency false) (λ hash image keys signature. (true, false)) (λ tx. 0) funded
      small_block small_header

abbrev after_spending : BlockChainState
after_spending = elim block_run [
  | redo_throws ↦ empty
  | redo_fails error conflict_height ↦ empty
  | redo_passes r ↦ r.0
]

after_spending_run : block_run ≡ redo_passes (after_spending, (0 ∷ []) ∷ [] ∷ [])
unfolding redo_block ring_work check_sigs is_in_sw_checkpoint_zone redo_transactions
    redo_transaction_get_error redo_inputs redo_outputs give_keyimages give_outputs give_amounts
    give_spent apply_to_delta apply apply_keyimages apply_outputs apply_amounts apply_spent
    State.store_keyimage State.push_amount_output State.spend_output Delta.store_keyimage
    Delta.push_amount_output Delta.spend_output Delta.next_global_index_for_amount
after_spending_run = refl

small_room : HasRoom funded (block_transactions small_block)
small_room = λ a. ground arith

small_spends : SpendsOnce funded (block_transactions small_block)
small_spends = (
  (omega arith, record { unlock_time = 0; public_key = 8; height = 1; spent = false }, refl, refl),
  refl,
  tt,
)

redo_block-after_block_example :
    (after_spending ≡ after_block funded 3 (block_transactions small_block))
    × IsFilled after_spending
redo_block-after_block_example =
    redo_block-after_block (make_currency false) (λ hash image keys signature. (true, false))
      (λ tx. 0) funded small_block small_header after_spending ((0 ∷ []) ∷ [] ∷ []) funded-IsFilled
      small_room small_spends after_spending_run

undo_block-redo_block_example : undo_block after_spending base (spending ∷ []) ≡ some funded
undo_block-redo_block_example =
    undo_block-redo_block (make_currency false) (λ hash image keys signature. (true, false))
      (λ tx. 0) funded small_block small_header after_spending ((0 ∷ []) ∷ [] ∷ []) funded-IsFilled
      small_room small_spends after_spending_run

-- Above the checkpoints of the test network the signatures are checked.
abbrev signed_block : Block
signed_block = record small_block {
  transactions = record spending { signatures = (5 ∷ []) ∷ [] } ∷ [];
}

signed_block_run :
    redo_block
      (make_currency true)
      (λ hash image keys signature. (true, false))
      (λ tx. 0)
      funded
      signed_block
      small_header
    ≡ redo_passes (after_spending, (0 ∷ []) ∷ [] ∷ [])
unfolding redo_block ring_work check_sigs is_in_sw_checkpoint_zone start_work_get_error
    ring_transactions ring_inputs ring_arg ring_keys is_transaction_spend_time_unlocked
    redo_transactions redo_transaction_get_error redo_inputs redo_outputs give_keyimages
    give_outputs give_amounts give_spent apply_to_delta apply apply_keyimages apply_outputs
    apply_amounts apply_spent State.store_keyimage State.push_amount_output State.spend_output
    Delta.store_keyimage Delta.push_amount_output Delta.spend_output
    Delta.next_global_index_for_amount
signed_block_run = refl

redo_block-Added_example :
    ((check_sigs (make_currency true) small_header ≡ false)
      ⊎ SoundTransactions
          (make_currency true)
          (reader funded)
          3
          0
          (arg_check (λ hash image keys signature. (true, false)))
          (λ tx. 0)
          signed_block.transactions)
    × (length {A = List ℕ} ((0 ∷ []) ∷ [] ∷ []) ≡ 1 + 1)
    × Added (spent funded) (images_of (block_transactions signed_block)) (spent after_spending)
redo_block-Added_example =
    redo_block-Added (make_currency true) (λ hash image keys signature. (true, false)) (λ tx. 0)
      funded signed_block small_header after_spending ((0 ∷ []) ∷ [] ∷ []) signed_block_run

abbrev double_block : Block
double_block = record small_block { transactions = spending ∷ spending ∷ [] }

double_block_work :
    ring_work
      (make_currency false)
      (λ hash image keys signature. (true, false))
      (λ tx. 0)
      funded
      double_block
      small_header
    ≡ redo_passes []
unfolding ring_work check_sigs is_in_sw_checkpoint_zone
double_block_work = refl

redo_block-double_spend_example :
    redo_block
      (make_currency false)
      (λ hash image keys signature. (true, false))
      (λ tx. 0)
      funded
      double_block
      small_header
    ≡ redo_throws
redo_block-double_spend_example =
    redo_block-double_spend (make_currency false) (λ hash image keys signature. (true, false))
      (λ tx. 0) funded double_block small_header [] 11 [] [] [] double_block_work refl
