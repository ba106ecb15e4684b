-- ===== src/Semantic/Sound.antt =====
-- What an accepted transaction satisfies.
use naza.Common.{ℕ, ◌+◌, ◌-◌, ◌%◌, ◌^◌, ◌<◌}
use naza.Common.{◌≡◌, refl, ◌∙◌, arith}
use naza.Common.{Bool, true, false, ltb, ◌==◌, if◌then◌else◌}
use naza.Common.{none, some, List, [], ◌∷◌}
use naza.Common.{length, All}
use naza.Transaction.{TransactionInput, coinbase_input, key_input}
use naza.Transaction.{TransactionOutput, Transaction}
use naza.Semantic.{
  Checked, fails, passes, contains, check_outputs, later_indexes, is_empty, check_inputs,
}
use naza.Semantic.{
  check_totals, and_then, validate_semantic, get_key, check_output, check_input, input_amount,
  empty_inputs, amount_in, amount_out, get_tx_fee,
}

-- The sums without wrap-around.
abbrev pub total_out : List TransactionOutput → ℕ
total_out [] = 0
total_out (output ∷ outputs) = output.amount + total_out outputs

abbrev pub total_in : List TransactionInput → ℕ
total_in [] = 0
total_in (input ∷ inputs) = input_amount input + total_in inputs

-- The key images of the inputs are none of those seen, and differ from each other.
abbrev pub Fresh : List ℕ → List TransactionInput → Type 0
Fresh seen [] = Unit
Fresh seen (coinbase_input block_index ∷ inputs) = Fresh seen inputs
Fresh seen (key_input amount output_indexes key_image ∷ inputs) =
    (contains seen key_image ≡ false) × Fresh (key_image ∷ seen) inputs

abbrev pub IsGoodOutput : (ℕ → Bool) → Bool → TransactionOutput → Type 0
IsGoodOutput key_isvalid check_output_key output =
    (0 < output.amount) × (check_output_key ≡ true → key_isvalid (get_key output.target) ≡ true)

-- An input of a transaction that is not the coinbase: a ring with no repeated neighbour.
abbrev pub IsRing : TransactionInput → Type 0
IsRing (coinbase_input block_index) = ⊥
IsRing (key_input amount output_indexes key_image) =
    (is_empty output_indexes ≡ false) × (contains (later_indexes output_indexes) 0 ≡ false)

-- Amounts are `uint64_t`.
abbrev pub HasWords : Transaction → Type 0
HasWords tx =
    All (λ input. input_amount input < 2 ^ 64) tx.inputs
    × All (λ output. output.amount < 2 ^ 64) tx.outputs

check_output-passes :
    (key_isvalid : ℕ → Bool) (check_output_key : Bool) (output : TransactionOutput) (sum : ℕ)
    (rest : Checked) {total : ℕ}
    → output.amount < 2 ^ 64
    → sum < 2 ^ 64
    → check_output key_isvalid check_output_key output sum rest ≡ passes total
    → IsGoodOutput key_isvalid check_output_key output
      × (sum + output.amount < 2 ^ 64)
      × (rest ≡ passes total)
unfolding check_output
check_output-passes v c output sum rest ha hs h =
    ((ground arith, λ e. ground arith), ground arith, ground arith)

check_outputs_lem :
    (key_isvalid : ℕ → Bool) (check_output_key : Bool) (outputs : List TransactionOutput) (sum : ℕ)
    {total : ℕ}
    → All (λ output. output.amount < 2 ^ 64) outputs
    → sum < 2 ^ 64
    → check_outputs key_isvalid check_output_key outputs sum ≡ passes total
    → (total ≡ sum + total_out outputs)
      × (total < 2 ^ 64)
      × All (IsGoodOutput key_isvalid check_output_key) outputs
unfolding check_outputs
check_outputs_lem v c [] sum ha hs h = (grind arith, grind arith, tt)
check_outputs_lem v c (output ∷ outputs) sum ha hs h =
    let next = (sum + output.amount) % 2 ^ 64 in
    let (good, fits, more) =
      check_output-passes v c output sum (check_outputs v c outputs next) ha.0 hs h in
    let (sums, below, all) = check_outputs_lem v c outputs next ha.1 (omega arith) more in
    (omega arith, below, (good, all))

check_input-passes :
    (amount : ℕ) (output_indexes : List ℕ) (key_image : ℕ) (ki : List ℕ) (sum : ℕ) (rest : Checked)
    {total : ℕ}
    → amount < 2 ^ 64
    → sum < 2 ^ 64
    → check_input false (key_input amount output_indexes key_image) ki sum rest ≡ passes total
    → IsRing (key_input amount output_indexes key_image)
      × (contains ki key_image ≡ false)
      × (sum + amount < 2 ^ 64)
      × (rest ≡ passes total)
unfolding check_input
check_input-passes amount indexes image ki sum rest ha hs h =
    ((ground arith, ground arith), ground arith, ground arith, ground arith)

check_inputs_lem :
    (inputs : List TransactionInput) (ki : List ℕ) (sum : ℕ) {total : ℕ}
    → All (λ input. input_amount input < 2 ^ 64) inputs
    → sum < 2 ^ 64
    → check_inputs false inputs ki sum ≡ passes total
    → (total ≡ sum + total_in inputs) × (total < 2 ^ 64) × All IsRing inputs × Fresh ki inputs
unfolding check_inputs check_input
check_inputs_lem [] ki sum ha hs h = (grind arith, grind arith, tt, tt)
check_inputs_lem (coinbase_input i ∷ inputs) ki sum ha hs h = cc
check_inputs_lem (key_input amount indexes image ∷ inputs) ki sum ha hs h =
    let next = (sum + amount) % 2 ^ 64 in
    let (good, fresh, fits, more) =
      check_input-passes amount indexes image ki sum (check_inputs false inputs (image ∷ ki) next)
        ha.0 hs h in
    let (sums, below, all, others) =
      check_inputs_lem inputs (image ∷ ki) next ha.1 (omega arith) more in
    (omega arith, below, (good, all), (fresh, others))

check_totals-passes :
    (tx : Transaction) (outs ins : ℕ) {fee : ℕ}
    → outs < 2 ^ 64
    → ins < 2 ^ 64
    → check_totals false tx outs ins ≡ passes fee
    → (ins ≡ outs + fee) × (length tx.signatures ≡ length tx.inputs)
unfolding check_totals
check_totals-passes tx outs ins ho hi h = (ground arith, ground arith)

and_then-passes :
    (c : Checked) (f : ℕ → Checked) {fee : ℕ}
    → and_then c f ≡ passes fee
    → (x : ℕ) × (c ≡ passes x) × (f x ≡ passes fee)
and_then-passes (fails r) f h = cc
and_then-passes (passes x) f h = (x, refl, h)

-- What `validate_semantic` promises of a transaction that is not the coinbase.
pub record IsValid (key_isvalid : ℕ → Bool) (check_output_key : Bool) (tx : Transaction) (fee : ℕ)
    : Type 0 where
  pub has_input : 0 < length tx.inputs
  pub balance : total_in tx.inputs ≡ total_out tx.outputs + fee
  pub in_word : total_in tx.inputs < 2 ^ 64
  pub outputs_good : All (IsGoodOutput key_isvalid check_output_key) tx.outputs
  pub rings : All IsRing tx.inputs
  pub images_differ : Fresh [] tx.inputs
  pub signed : length tx.signatures ≡ length tx.inputs

-- A transaction with 64-bit amounts that is not the coinbase and passes with a fee has an input;
-- its amounts, summed without wrap-around, fit 64 bits and balance with the fee; every output has
-- a positive amount and, where keys are checked, a valid key; every input is a key input with a
-- nonempty ring whose later relative positions are not zero; no key image occurs twice; and there
-- is one ring signature for each input.
pub validate_semantic_sound :
    (key_isvalid : ℕ → Bool) (tx : Transaction) (check_output_key : Bool) (fee : ℕ)
    → HasWords tx
    → validate_semantic key_isvalid false tx check_output_key ≡ passes fee
    → IsValid key_isvalid check_output_key tx fee
unfolding validate_semantic
validate_semantic_sound v tx c fee words h =
    let inner : Checked =
      and_then (check_outputs v c tx.outputs 0) λ outs.
        and_then (check_inputs false tx.inputs [] 0) λ ins. check_totals false tx outs ins in
    let (some_input, run) = not_empty (length tx.inputs) inner h in
    let (outs, out_run, rest) = and_then-passes (check_outputs v c tx.outputs 0) _ run in
    let (ins, in_run, total_run) = and_then-passes (check_inputs false tx.inputs [] 0) _ rest in
    let (out_sum, out_word, good) =
      check_outputs_lem v c tx.outputs 0 words.1 (omega arith) out_run in
    let (in_sum, in_word, rings, fresh) =
      check_inputs_lem tx.inputs [] 0 words.0 (omega arith) in_run in
    let (balance, signed) = check_totals-passes tx outs ins out_word in_word total_run in
    record {
      has_input = some_input;
      balance = omega arith;
      in_word = omega arith;
      outputs_good = good;
      rings = rings;
      images_differ = fresh;
      signed = signed;
    }
  where
    not_empty :
        (n : ℕ) (rest : Checked) {fee : ℕ}
        → (if n == 0 then fails empty_inputs else rest) ≡ passes fee
        → (0 < n) × (rest ≡ passes fee)
    not_empty n rest h = (ground arith, ground arith)

amount_out-exact :
    (outputs : List TransactionOutput) (sum : ℕ)
    → sum + total_out outputs < 2 ^ 64
    → amount_out outputs sum ≡ sum + total_out outputs
unfolding amount_out
amount_out-exact [] sum h = omega arith
amount_out-exact (output ∷ outputs) sum h =
    amount_out-exact outputs ((sum + output.amount) % 2 ^ 64) (omega arith) ∙ omega arith

amount_in-exact :
    (inputs : List TransactionInput) (sum : ℕ)
    → sum + total_in inputs < 2 ^ 64
    → amount_in inputs sum ≡ sum + total_in inputs
unfolding amount_in
amount_in-exact [] sum h = omega arith
amount_in-exact (input ∷ inputs) sum h =
    amount_in-exact inputs ((sum + input_amount input) % 2 ^ 64) (omega arith) ∙ omega arith

-- For a transaction with 64-bit amounts that is not the coinbase and that `validate_semantic`
-- accepts, `get_tx_fee` computes the same fee: the two sums of its inputs and outputs do not wrap.
pub get_tx_fee-validate_semantic :
    (key_isvalid : ℕ → Bool) (tx : Transaction) (check_output_key : Bool) (fee : ℕ)
    → HasWords tx
    → validate_semantic key_isvalid false tx check_output_key ≡ passes fee
    → get_tx_fee tx ≡ some fee
unfolding get_tx_fee
get_tx_fee-validate_semantic v tx c fee words h =
    let valid = validate_semantic_sound v tx c fee words h in
    let ins = amount_in-exact tx.inputs 0 (omega (arith, valid.in_word)) in
    let outs = amount_out-exact tx.outputs 0 (omega (arith, valid.in_word, valid.balance)) in
    fee_of (amount_in tx.inputs 0) (amount_out tx.outputs 0) (omega (arith, valid.balance))
  where
    fee_of : (i o : ℕ) {fee : ℕ} → i ≡ o + fee → (if ltb i o then none else some (i - o)) ≡ some fee
    fee_of i o h = ground arith
