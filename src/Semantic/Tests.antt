-- ===== src/Semantic/Tests.antt =====
-- Runs of the checks, and their theorems at a concrete transaction.
use naza.Common.{ℕ}
use naza.Common.{◌≡◌, refl, arith}
use naza.Common.{Bool, true, false}
use naza.Common.{some, List, [], ◌∷◌}
use naza.Transaction.{TransactionInput, key_input, key_output}
use naza.Transaction.{Transaction}
use naza.Semantic.{
  fails, passes, check_output, check_outputs, check_input, check_inputs, check_totals,
}
use naza.Semantic.{validate_semantic, get_tx_fee, input_identical_keyimages}
use naza.Semantic.Sound.{HasWords, IsValid, validate_semantic_sound, get_tx_fee-validate_semantic}

abbrev payment : List TransactionInput → Transaction
payment inputs = record {
  version = 1;
  unlock_time = 0;
  inputs = inputs;
  outputs =
      record { amount = 70; target = key_output 5 }
      ∷ record { amount = 20; target = key_output 6 }
      ∷ [];
  extra = [];
  signatures = (1 ∷ []) ∷ (2 ∷ []) ∷ [];
}

abbrev tx : Transaction
tx = payment (key_input 60 (3 ∷ 1 ∷ []) 11 ∷ key_input 40 (8 ∷ []) 12 ∷ [])

abbrev any_key : ℕ → Bool
any_key key = true

accepted : validate_semantic any_key false tx true ≡ passes 10
unfolding validate_semantic check_outputs check_output check_inputs check_input check_totals
accepted = refl

double_spend :
    validate_semantic any_key false
      (payment (key_input 60 (3 ∷ []) 11 ∷ key_input 40 (8 ∷ []) 11 ∷ []))
      true
    ≡ fails input_identical_keyimages
unfolding validate_semantic check_outputs check_output check_inputs check_input check_totals
double_spend = refl

tx-HasWords : HasWords tx
tx-HasWords = ((omega arith, (omega arith, tt)), (omega arith, (omega arith, tt)))

validate_semantic_sound_example : IsValid any_key true tx 10
validate_semantic_sound_example = validate_semantic_sound any_key tx true 10 tx-HasWords accepted

get_tx_fee-validate_semantic_example : get_tx_fee tx ≡ some 10
get_tx_fee-validate_semantic_example =
    get_tx_fee-validate_semantic any_key tx true 10 tx-HasWords accepted
