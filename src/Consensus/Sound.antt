-- ===== src/Consensus/Sound.antt =====
-- What a block has that `check_standalone_consensus` accepts.
use naza.Common.{ℕ, ◌+◌, ◌-◌, ◌%◌, ◌^◌, ◌≤◌, ◌<◌, List, [], ◌∷◌, map, length, All}
use naza.Common.{◌≡◌, refl, ap, ◌∙◌, arith}
use naza.Common.{Bool, true, false, not, ◌||◌, leb, ◌==◌}
use naza.Transaction.{TransactionInput, coinbase_input, key_input, TransactionOutput, Transaction}
use naza.Semantic.{Checked, fails, passes, get_key, validate_semantic}
use naza.Consensus.{
  BlockError, invalid_transaction, Verdict, rejects, accepts, and_check, ensure,
  check_raw_transactions, check_miner_outputs, check_base_inputs, check_transactions,
}

pub accepts_eq : {A : Type 0} {x y : A} → accepts x ≡ accepts y → x ≡ y
accepts_eq h = cc

-- What an accepting chain accepted first.
pub and_check-accepts :
    {A B : Type 0} (m : Verdict A) (f : A → Verdict B) {b : B}
    → and_check m f ≡ accepts b
    → (a : A) × (m ≡ accepts a) × (f a ≡ accepts b)
and_check-accepts (rejects error) f h = cc
and_check-accepts (accepts a) f h = (a, refl, h)

pub ensure-accepts :
    {B : Type 0} (ok : Bool) (error : BlockError) (rest : Verdict B) {b : B}
    → ensure ok error rest ≡ accepts b
    → (ok ≡ true) × (rest ≡ accepts b)
ensure-accepts true error rest h = (refl, h)
ensure-accepts false error rest h = cc

-- The sum of the sizes, without wrap-around.
abbrev pub total_size : List ℕ → ℕ
total_size [] = 0
total_size (size ∷ sizes) = size + total_size sizes

pub check_raw_transactions-hashes :
    (get_transaction_hash : Transaction → ℕ) (max_size : ℕ) (txs : List Transaction)
    (hashes sizes : List ℕ) (sum : ℕ) {total : ℕ}
    → length txs ≡ length hashes
    → length txs ≡ length sizes
    → check_raw_transactions get_transaction_hash max_size txs hashes sizes sum ≡ accepts total
    → (map get_transaction_hash txs ≡ hashes)
      × All (λ size. size ≤ max_size) sizes
      × (total ≡ sum + total_size sizes)
unfolding check_raw_transactions
check_raw_transactions-hashes f max_size [] [] [] sum same same' h =
    (refl, tt, omega (arith, accepts_eq h))
check_raw_transactions-hashes f max_size [] [] (size ∷ sizes) sum same same' h =
    absurd (omega arith)
check_raw_transactions-hashes f max_size [] (hash ∷ hashes) sizes sum same same' h =
    absurd (omega arith)
check_raw_transactions-hashes f max_size (tx ∷ txs) [] sizes sum same same' h = absurd (omega arith)
check_raw_transactions-hashes f max_size (tx ∷ txs) (hash ∷ hashes) [] sum same same' h =
    absurd (omega arith)
check_raw_transactions-hashes f max_size (tx ∷ txs) (hash ∷ hashes) (size ∷ sizes) sum same same'
      h =
    let (small, more) = ensure-accepts (leb size max_size) _ _ h in
    let (own, rest) = ensure-accepts (f tx == hash) _ _ more in
    let e : f tx ≡ hash = ground arith in
    let (later, bounded, total) =
      check_raw_transactions-hashes f max_size txs hashes sizes (sum + size) (omega arith)
        (omega arith) rest in
    (
      ap (λ (x : ℕ). x ∷ map f txs) e ∙ ap (λ (xs : List ℕ). hash ∷ xs) later,
      (ground arith, bounded),
      omega (arith, total),
    )

-- The sum of the amounts, without wrap-around.
abbrev pub total_amount : List TransactionOutput → ℕ
total_amount [] = 0
total_amount (output ∷ outputs) = output.amount + total_amount outputs

pub check_miner_outputs-total :
    (key_isvalid : ℕ → Bool) (check_keys : Bool) (outputs : List TransactionOutput) (sum : ℕ)
    {total : ℕ}
    → All (λ (o : TransactionOutput). o.amount < 2 ^ 64) outputs
    → check_miner_outputs key_isvalid check_keys outputs sum ≡ accepts total
    → (sum + total_amount outputs ≡ total) × All (λ (o : TransactionOutput). 0 < o.amount) outputs
unfolding check_miner_outputs
check_miner_outputs-total key_isvalid check_keys [] sum words h = (omega (arith, accepts_eq h), tt)
check_miner_outputs-total key_isvalid check_keys (output ∷ outputs) sum words h =
    let (nonzero, h1) = ensure-accepts (not (output.amount == 0)) _ _ h in
    let (key, h2) = ensure-accepts (not check_keys || key_isvalid (get_key output.target)) _ _ h1 in
    let (room, h3) = ensure-accepts (leb sum (2 ^ 64 - 1 - output.amount)) _ _ h2 in
    let (total, positive) =
      check_miner_outputs-total key_isvalid check_keys outputs ((sum + output.amount) % 2 ^ 64)
        words.1 h3 in
    let small : sum ≤ 2 ^ 64 - 1 - output.amount = ground arith in
    (omega (arith, total, words.0), (ground arith, positive))

pub check_base_inputs-one :
    (inputs : List TransactionInput) (height : ℕ)
    → check_base_inputs inputs height ≡ accepts tt
    → inputs ≡ coinbase_input height ∷ []
unfolding check_base_inputs
check_base_inputs-one [] height h = cc
check_base_inputs-one (coinbase_input block_index ∷ []) height h =
    let (same, done) = ensure-accepts (block_index == height) _ _ h in
    let e : block_index ≡ height = ground arith in ap (λ (n : ℕ). coinbase_input n ∷ []) e
check_base_inputs-one (key_input amount output_indexes key_image ∷ []) height h = cc
check_base_inputs-one (coinbase_input b ∷ other ∷ inputs) height h = cc
check_base_inputs-one (key_input a o k ∷ other ∷ inputs) height h = cc

pub check_transactions-passes :
    (key_isvalid : ℕ → Bool) (check_keys : Bool) (txs : List Transaction) {u : Unit {0}}
    → check_transactions key_isvalid check_keys txs ≡ accepts u
    → All (λ tx. (fee : ℕ) × (validate_semantic key_isvalid false tx check_keys ≡ passes fee)) txs
unfolding check_transactions
check_transactions-passes key_isvalid check_keys [] h = tt
check_transactions-passes key_isvalid check_keys (tx ∷ txs) h =
    let (fee, e, rest) = first (validate_semantic key_isvalid false tx check_keys) h in
    ((fee, e), check_transactions-passes key_isvalid check_keys txs rest)
  where
    first :
        (v : Checked) {w : Unit {0}}
        → elim v as (λ x. Verdict (Unit {0})) [
          | fails reason ↦ rejects (invalid_transaction reason)
          | passes fee ↦ check_transactions key_isvalid check_keys txs
        ]
          ≡ accepts w
        → (fee : ℕ) × (v ≡ passes fee) × (check_transactions key_isvalid check_keys txs ≡ accepts w)
    first (fails reason) x = cc
    first (passes fee) x = (fee, refl, x)
