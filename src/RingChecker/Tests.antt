-- ===== src/RingChecker/Tests.antt =====
-- The theorems about the ring checker at a block of one signature.
use naza.Common.{◌<◌, [], ◌∷◌, none, some}
use naza.Common.{◌≡◌, refl, ◌⊎◌, Bool, true, false, ◌&&◌, ◌==◌, if◌then◌else◌}
use naza.Transaction.{Transaction, coinbase_input, key_input}
use naza.Currency.{make_currency, is_transaction_spend_time_unlocked}
use naza.Block.{Block}
use naza.State.{IBlockChainState}
use naza.State.Redo.{redo_passes}
use naza.RingChecker.{
  RingSignatureArg, RingChecker, start_work, push_arg, signatures_valid, count_result, errors_of,
  Step, takes, counts, Reachable, created, started, pushed, stepped, all_pass, ring_keys, ring_arg,
  ring_inputs, ring_transactions, start_work_get_error,
}
use naza.RingChecker.Answer.{work_left, signatures_valid_lem}
use naza.RingChecker.Sound.{SoundTransactions, start_work-IsSound}

abbrev passing : RingSignatureArg → Bool × Bool
passing arg = (true, false)

-- A state with one output of the amount 70.
abbrev one_output : IBlockChainState
one_output = record {
  read_keyimage = λ k. none;
  next_global_index_for_amount = λ a. if a == 70 then 1 else 0;
  read_amount_output = λ a i.
      if a == 70 && i == 0
      then some (record { unlock_time = 0; public_key = 8; height = 1; spent = false })
      else none;
}

abbrev base : Transaction
base = record {
  version = 1;
  unlock_time = 13;
  inputs = coinbase_input 3 ∷ [];
  outputs = [];
  extra = [];
  signatures = [];
}

abbrev signed : Transaction
signed = record {
  version = 1;
  unlock_time = 0;
  inputs = key_input 70 (0 ∷ []) 11 ∷ [];
  outputs = [];
  extra = [];
  signatures = (5 ∷ []) ∷ [];
}

abbrev signed_block : Block
signed_block = record {
  header = record {
    major_version = 1;
    minor_version = 0;
    nonce = 0;
    timestamp = 0;
    previous_block_hash = 1;
    parent_block_major_version = 0;
    base_transaction = base;
    transaction_hashes = 21 ∷ [];
  };
  transactions = signed ∷ [];
}

abbrev only_arg : RingSignatureArg
only_arg = record { tx_prefix_hash = 9; key_image = 11; output_keys = 8 ∷ []; signatures = 5 ∷ [] }

signed_block_run :
    start_work_get_error (make_currency false) one_output 3 0 (λ tx. 9) signed_block
    ≡ redo_passes (only_arg ∷ [])
unfolding start_work_get_error ring_transactions ring_inputs ring_arg ring_keys
    is_transaction_spend_time_unlocked
signed_block_run = refl

abbrev finished : RingChecker
finished = record {
  total_counter = 1;
  ready_counter = 1;
  errors = [];
  args = [];
  work_counter = 1;
  running = [];
}

finished-Reachable : Reachable passing (some (only_arg ∷ [])) finished
unfolding start_work push_arg count_result errors_of
finished-Reachable =
    stepped (stepped (pushed only_arg (started created)) (takes only_arg [] refl))
      (counts [] [] only_arg 1 refl)

signatures_valid_lem_example :
    (signatures_valid finished ≡ some (all_pass passing (only_arg ∷ [])))
    ⊎ ((signatures_valid finished ≡ none)
        × ((d : RingChecker) × Step passing finished d)
        × ((d : RingChecker) → Step passing finished d → work_left d < work_left finished))
signatures_valid_lem_example =
    signatures_valid_lem passing (only_arg ∷ []) finished finished-Reachable

start_work-IsSound_example :
    SoundTransactions (make_currency false) one_output 3 0 passing (λ tx. 9) (signed ∷ [])
unfolding signatures_valid
start_work-IsSound_example =
    start_work-IsSound (make_currency false) one_output 3 0 passing (λ tx. 9) signed_block
      (only_arg ∷ []) finished signed_block_run finished-Reachable refl
