-- ===== src/Semantic.antt =====
-- Core/BlockChainState.cpp: `validate_semantic`, the checks of a transaction by itself, with the
-- fee of Core/CryptoNoteTools.cpp. `key_isvalid` of crypto/crypto.cpp is a parameter.
pub mod Sound
mod Tests
use naza.Common.{ℕ, ◌+◌, ◌-◌, ◌%◌, ◌^◌, List, [], ◌∷◌, Option, none, some, length}
use naza.Common.{Bool, true, false, not, ◌&&◌, ◌||◌, ltb, leb, ◌==◌, if◌then◌else◌}
use naza.Transaction.{TransactionInput, coinbase_input, key_input, key_output}
use naza.Transaction.{TransactionOutputTarget, TransactionOutput, Transaction}

-- The strings that the function returns.
pub data Reason : Type 0 where
  empty_inputs : Reason
  output_zero_amount : Reason
  output_invalid_key : Reason
  outputs_amount_overflow : Reason
  input_unknown_type : Reason
  input_identical_keyimages : Reason
  input_empty_output_usage : Reason
  input_identical_output_indexes : Reason
  inputs_amount_overflow : Reason
  wrong_amount : Reason

pub data Checked : Type 0 where
  fails : (reason : Reason) → Checked
  passes : (amount : ℕ) → Checked

-- `std::find` and `unordered_set::insert`.
abbrev pub contains : List ℕ → ℕ → Bool
contains [] x = false
contains (y ∷ ys) x = x == y || contains ys x

-- `boost::get<KeyOutput>(output.target).key`; there is no other kind of target.
abbrev pub get_key : TransactionOutputTarget → ℕ
get_key (key_output key) = key

-- One round of the loop over the outputs, and `rest` the rounds after it.
unfoldable pub check_output : (ℕ → Bool) → Bool → TransactionOutput → ℕ → Checked → Checked
check_output key_isvalid check_output_key output summary rest =
    if output.amount == 0
    then fails output_zero_amount
    else if check_output_key && not (key_isvalid (get_key output.target))
    then fails output_invalid_key
    else if ltb (2 ^ 64 - 1 - output.amount) summary
    then fails outputs_amount_overflow
    else rest

-- The loop over the outputs, with `summary_output_amount`.
unfoldable pub check_outputs : (ℕ → Bool) → Bool → List TransactionOutput → ℕ → Checked
check_outputs key_isvalid check_output_key [] summary = passes summary
check_outputs key_isvalid check_output_key (output ∷ outputs) summary =
    check_output key_isvalid check_output_key output summary
      (check_outputs key_isvalid check_output_key outputs ((summary + output.amount) % 2 ^ 64))

-- The relative positions of a ring's members after the first.
abbrev pub later_indexes : List ℕ → List ℕ
later_indexes [] = []
later_indexes (x ∷ xs) = xs

abbrev pub is_empty : List ℕ → Bool
is_empty [] = true
is_empty (x ∷ xs) = false

-- One round of the loop over the inputs.
unfoldable pub check_input : Bool → TransactionInput → List ℕ → ℕ → Checked → Checked
check_input generating (coinbase_input block_index) ki summary rest =
    if not generating
    then fails input_unknown_type
    else if ltb (2 ^ 64 - 1) summary
    then fails inputs_amount_overflow
    else rest
check_input generating (key_input amount output_indexes key_image) ki summary rest =
    if generating
    then fails input_unknown_type
    else if contains ki key_image
    then fails input_identical_keyimages
    else if is_empty output_indexes
    then fails input_empty_output_usage
    else if contains (later_indexes output_indexes) 0
    then fails input_identical_output_indexes
    else if ltb (2 ^ 64 - 1 - amount) summary
    then fails inputs_amount_overflow
    else rest

-- The key images and the sum after an input.
abbrev pub add_image : TransactionInput → List ℕ → List ℕ
add_image (coinbase_input block_index) ki = ki
add_image (key_input amount output_indexes key_image) ki = key_image ∷ ki

abbrev pub input_amount : TransactionInput → ℕ
input_amount (coinbase_input block_index) = 0
input_amount (key_input amount output_indexes key_image) = amount

-- The loop over the inputs, with the key images so far and `summary_input_amount`.
unfoldable pub check_inputs : Bool → List TransactionInput → List ℕ → ℕ → Checked
check_inputs generating [] ki summary = passes summary
check_inputs generating (input ∷ inputs) ki summary =
    check_input generating input ki summary (
      check_inputs generating inputs (add_image input ki) ((summary + input_amount input) % 2 ^ 64))

-- The tests after the loops; `passes` holds the fee.
unfoldable pub check_totals : Bool → Transaction → ℕ → ℕ → Checked
check_totals generating tx summary_output_amount summary_input_amount =
    if ltb summary_input_amount summary_output_amount && not generating
    then fails wrong_amount
    else if not (length tx.signatures == length tx.inputs) && not generating
    then fails input_unknown_type
    else if not (length tx.signatures == 0) && generating
    then fails input_unknown_type
    else passes ((summary_input_amount + 2 ^ 64 - summary_output_amount) % 2 ^ 64)

-- `if (!result.empty()) return result;`
abbrev pub and_then : Checked → (ℕ → Checked) → Checked
and_then (fails reason) f = fails reason
and_then (passes amount) f = f amount

unfoldable pub validate_semantic : (ℕ → Bool) → Bool → Transaction → Bool → Checked
validate_semantic key_isvalid generating tx check_output_key =
    if length tx.inputs == 0
    then fails empty_inputs
    else and_then (check_outputs key_isvalid check_output_key tx.outputs 0) λ outs.
      and_then (check_inputs generating tx.inputs [] 0) λ ins. check_totals generating tx outs ins

-- The sums of `get_tx_fee`, which wrap.
unfoldable pub amount_in : List TransactionInput → ℕ → ℕ
amount_in [] sum = sum
amount_in (input ∷ inputs) sum = amount_in inputs ((sum + input_amount input) % 2 ^ 64)

unfoldable pub amount_out : List TransactionOutput → ℕ → ℕ
amount_out [] sum = sum
amount_out (output ∷ outputs) sum = amount_out outputs ((sum + output.amount) % 2 ^ 64)

unfoldable pub get_tx_fee : Transaction → Option ℕ
get_tx_fee tx =
    let ins = amount_in tx.inputs 0 in
    let outs = amount_out tx.outputs 0 in if ltb ins outs then none else some (ins - outs)
