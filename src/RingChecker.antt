-- ===== src/RingChecker.antt =====
-- Core/RingCheckerMulticore.hpp and .cpp: the checks of a block's ring signatures, shared by several
-- threads. A step of a thread is a critical section of the mutex: what a thread takes from the queue is
-- its own until it counts the result. `check_ring_signature` is a parameter. The counters are numbers
-- without a bound: `work_counter` grows by one a block and the others count signatures of a block.
pub mod Counted
pub mod Answer
pub mod Sound
mod Tests
use naza.Common.{ℕ, ◌+◌, List, [], ◌∷◌, ◌++◌, Option, none, some, get_elem?}
use naza.Common.{◌≡◌, Bool, true, false, not, ◌==◌, if◌then◌else◌}
use naza.Transaction.{TransactionInput, coinbase_input, key_input, Transaction}
use naza.Semantic.{is_empty}
use naza.Currency.{Currency, is_transaction_spend_time_unlocked}
use naza.Block.{Block}
use naza.State.{IBlockChainState, is_some}
use naza.State.Redo.{
  RedoError, input_keyimage_already_spent, input_unknown_type, input_invalid_global_index,
  input_spend_locked_out, input_corrupted_signatures, input_invalid_signatures, Redone, redo_fails,
  redo_passes, and_redo, or_throw, sum_indexes,
}

pub record RingSignatureArg : Type 0 where
  pub tx_prefix_hash : ℕ
  pub key_image : ℕ
  pub output_keys : List ℕ
  pub signatures : List ℕ

-- `running` has what the threads took and did not count yet, with the `work_counter` of that moment.
pub record RingChecker : Type 0 where
  pub total_counter : ℕ
  pub ready_counter : ℕ
  pub errors : List RedoError
  pub args : List RingSignatureArg
  pub work_counter : ℕ
  pub running : List (RingSignatureArg × ℕ)

abbrev pub or_fail : {A : Type 0} → Option A → RedoError → Redone A
or_fail none error = redo_fails error 0
or_fail (some value) error = redo_passes value

module _ (currency : Currency) (state : IBlockChainState) (unlock_height unlock_timestamp : ℕ) where
  -- The keys of the ring's members.
  unfoldable pub ring_keys : ℕ → List ℕ → Redone (List ℕ)
  ring_keys amount [] = redo_passes []
  ring_keys amount (global_index ∷ global_indexes) =
      let rest = ring_keys amount global_indexes in
      and_redo (or_fail (state.read_amount_output amount global_index) input_invalid_global_index)
        (λ unp.
          if not (
            is_transaction_spend_time_unlocked currency unp.unlock_time unlock_height
              unlock_timestamp)
          then redo_fails input_spend_locked_out 0
          else and_redo rest (λ keys. redo_passes (unp.public_key ∷ keys)))

  -- The work of an input; a signature out of range throws here.
  unfoldable pub ring_arg : ℕ → List (List ℕ) → ℕ → ℕ → List ℕ → ℕ → Redone RingSignatureArg
  ring_arg tx_prefix_hash signatures input_index amount output_indexes key_image =
      and_redo (or_throw (get_elem? signatures input_index)) (λ signature.
        if is_some (state.read_keyimage key_image)
        then redo_fails input_keyimage_already_spent 0
        else if is_empty output_indexes
        then redo_fails input_unknown_type 0
        else and_redo (ring_keys amount (sum_indexes 0 output_indexes)) (λ keys.
          redo_passes (record {
            tx_prefix_hash = tx_prefix_hash;
            key_image = key_image;
            output_keys = keys;
            signatures = signature;
          })))

  -- The work of a transaction's inputs, up to an error.
  unfoldable pub ring_inputs :
      ℕ → List (List ℕ) → ℕ → List TransactionInput → Redone (List RingSignatureArg)
  ring_inputs tx_prefix_hash signatures input_index [] = redo_passes []
  ring_inputs tx_prefix_hash signatures input_index (coinbase_input block_index ∷ inputs) =
      ring_inputs tx_prefix_hash signatures (input_index + 1) inputs
  ring_inputs tx_prefix_hash signatures input_index
        (key_input amount output_indexes key_image ∷ inputs) =
      and_redo (ring_arg tx_prefix_hash signatures input_index amount output_indexes key_image)
        (λ arg.
          and_redo (ring_inputs tx_prefix_hash signatures (input_index + 1) inputs)
            (λ rest. redo_passes (arg ∷ rest)))

  module _ (get_transaction_prefix_hash : Transaction → ℕ) where
    unfoldable pub ring_transactions : List Transaction → Redone (List RingSignatureArg)
    ring_transactions [] = redo_passes []
    ring_transactions (transaction ∷ transactions) =
        and_redo
          (ring_inputs (get_transaction_prefix_hash transaction) transaction.signatures 0
            transaction.inputs)
          (λ mine. and_redo (ring_transactions transactions) (λ rest. redo_passes (mine ++ rest)))

    -- What `start_work_get_error` puts into the queue, or its error.
    unfoldable pub start_work_get_error : Block → Redone (List RingSignatureArg)
    start_work_get_error block = ring_transactions block.transactions

-- What `start_work_get_error` does first, and for each input; what is in the threads stays there.
unfoldable pub start_work : RingChecker → RingChecker
start_work c = record c {
  total_counter = 0;
  ready_counter = 0;
  errors = [];
  args = [];
  work_counter = c.work_counter + 1;
}

unfoldable pub push_arg : RingChecker → RingSignatureArg → RingChecker
push_arg c arg = record c { total_counter = c.total_counter + 1; args = c.args ++ arg ∷ [] }

unfoldable pub cancel_work : RingChecker → RingChecker
cancel_work c = record c { args = []; work_counter = c.work_counter + 1 }

abbrev pub no_errors : List RedoError → Bool
no_errors [] = true
no_errors (error ∷ errors) = false

-- Where `signatures_valid` does not wait any more.
unfoldable pub signatures_valid : RingChecker → Option Bool
signatures_valid c = if c.ready_counter == c.total_counter then some (no_errors c.errors) else none

module _ (check_ring_signature : RingSignatureArg → Bool × Bool) where
  -- The error of a signature that does not pass.
  unfoldable pub errors_of : RingSignatureArg → List RedoError
  errors_of arg =
      let checked = check_ring_signature arg in
      if checked.0
      then []
      else (if checked.1 then input_corrupted_signatures else input_invalid_signatures) ∷ []

  -- What a thread does with a result: it is counted where it is of the current work.
  unfoldable pub count_result :
      RingChecker → RingSignatureArg → ℕ → List (RingSignatureArg × ℕ) → RingChecker
  count_result c arg local_work_counter running =
      if local_work_counter == c.work_counter
      then record c {
        ready_counter = c.ready_counter + 1;
        errors = c.errors ++ errors_of arg;
        running = running;
      }
      else record c { running = running }

  -- A thread takes the first work of the queue, or counts the result of what it took.
  pub data Step (c : RingChecker) : RingChecker → Type 0 where
    takes :
        (arg : RingSignatureArg) (rest : List RingSignatureArg)
        → c.args ≡ arg ∷ rest
        → Step c (record c { args = rest; running = (arg, c.work_counter) ∷ c.running })
    counts :
        (before after : List (RingSignatureArg × ℕ)) (arg : RingSignatureArg)
        (local_work_counter : ℕ)
        → c.running ≡ before ++ (arg, local_work_counter) ∷ after
        → Step c (count_result c arg local_work_counter (before ++ after))

  -- The checker after any work of the threads in between, and what was put into the queue for the
  -- current block; nothing is current where the work was cancelled.
  pub data Reachable : Option (List RingSignatureArg) → RingChecker → Type 0 where
    created : Reachable none (record {
      total_counter = 0;
      ready_counter = 0;
      errors = [];
      args = [];
      work_counter = 0;
      running = [];
    })
    started :
        {given : Option (List RingSignatureArg)} {c : RingChecker}
        → Reachable given c
        → Reachable (some []) (start_work c)
    pushed :
        {given : List RingSignatureArg} {c : RingChecker} (arg : RingSignatureArg)
        → Reachable (some given) c
        → Reachable (some (given ++ arg ∷ [])) (push_arg c arg)
    cancelled :
        {given : Option (List RingSignatureArg)} {c : RingChecker}
        → Reachable given c
        → Reachable none (cancel_work c)
    stepped :
        {given : Option (List RingSignatureArg)} {c d : RingChecker}
        → Reachable given c
        → Step c d
        → Reachable given d

-- Every signature passes.
abbrev pub all_pass : (RingSignatureArg → Bool × Bool) → List RingSignatureArg → Bool
all_pass check_ring_signature [] = true
all_pass check_ring_signature (arg ∷ args) =
    if (check_ring_signature arg).0 then all_pass check_ring_signature args else false
