-- ===== src/RingChecker/Sound.antt =====
-- `start_work_get_error` and `signatures_valid` together: what holds of the inputs of a block that they
-- let pass.
use naza.Common.Options.{some_eq}
use naza.Common.{ℕ, ◌+◌, ◌<◌}
use naza.Common.{◌≡◌, refl, sym, ap, ◌∙◌, inl, inr, arith}
use naza.Common.{Bool, true, false, if◌then◌else◌, Bool-cases}
use naza.Common.{Option, none, some, List, [], ◌∷◌, ◌++◌, length, get_elem?}
use naza.Transaction.{TransactionInput, coinbase_input, key_input, Transaction}
use naza.Semantic.{is_empty}
use naza.Currency.{Currency, is_transaction_spend_time_unlocked}
use naza.Block.{Block}
use naza.State.{UnlockTimePublickKeyHeightSpent, IBlockChainState}
use naza.State.Store.{is_some-false}
use naza.State.Redo.{
  RedoError, input_keyimage_already_spent, input_unknown_type, input_invalid_global_index,
  input_spend_locked_out, Redone, redo_fails, redo_passes, or_throw, sum_indexes,
}
use naza.State.Redo.DoubleSpend.{passes_eq, and_redo-passes, or_throw-passes, guard_passes}
use naza.RingChecker.{
  RingSignatureArg, ring_keys, ring_arg, ring_inputs, ring_transactions, start_work_get_error,
  all_pass, or_fail, RingChecker, Reachable, signatures_valid,
}
use naza.RingChecker.Answer.{signatures_valid_lem}

or_fail-passes :
    {A : Type 0} (m : Option A) (error : RedoError) {a : A}
    → or_fail m error ≡ redo_passes a
    → m ≡ some a
or_fail-passes none error h = cc
or_fail-passes (some a) error h = ap some (passes_eq h)

refused_passes :
    {A : Type 0} (b : Bool) (error : RedoError) (m : Redone A) {a : A}
    → (if b then redo_fails error 0 else m) ≡ redo_passes a
    → (b ≡ false) × (m ≡ redo_passes a)
refused_passes false error m h = (refl, h)
refused_passes true error m h = cc

some_member : (xs : List ℕ) → is_empty xs ≡ false → 0 < length xs
some_member [] h = cc
some_member (x ∷ xs) h = omega arith

all_pass-append :
    (check : RingSignatureArg → Bool × Bool) (xs ys : List RingSignatureArg)
    → all_pass check (xs ++ ys) ≡ true
    → (all_pass check xs ≡ true) × (all_pass check ys ≡ true)
all_pass-append check [] ys h = (refl, h)
all_pass-append check (x ∷ xs) ys h = elim (Bool-cases (check x).0) [
  | inl passes ↦
      let rest = all_pass-append check xs ys (ground (arith, h, passes)) in
      (rw passes rest.0, rest.1)
  | inr fails ↦ absurd (fails_all x xs fails h)
]
  where
    fails_all :
        (x : RingSignatureArg) (xs : List RingSignatureArg)
        → (check x).0 ≡ false
        → all_pass check ((x ∷ xs) ++ ys) ≡ true
        → ⊥
    fails_all x xs fails h = ground (arith, fails, h)

module _ (currency : Currency) (state : IBlockChainState) (unlock_height unlock_timestamp : ℕ) where
  -- The members of a ring are outputs of the state that can be spent, and these are their keys.
  abbrev pub Members : ℕ → List ℕ → List ℕ → Type 0
  Members amount [] keys = keys ≡ []
  Members amount (global_index ∷ global_indexes) keys =
      (unp : UnlockTimePublickKeyHeightSpent) × (state.read_amount_output amount global_index
        ≡ some unp)
      × (is_transaction_spend_time_unlocked currency unp.unlock_time unlock_height unlock_timestamp
          ≡ true)
      × (rest : List ℕ) × (keys ≡ unp.public_key ∷ rest)
      × Members amount global_indexes rest

  ring_keys-Members :
      (amount : ℕ) (global_indexes keys : List ℕ)
      → ring_keys currency state unlock_height unlock_timestamp amount global_indexes
        ≡ redo_passes keys
      → Members amount global_indexes keys
  unfolding ring_keys
  ring_keys-Members amount [] keys h = sym (passes_eq h)
  ring_keys-Members amount (global_index ∷ global_indexes) keys h =
      let (unp, read, more) =
        and_redo-passes
          (or_fail (state.read_amount_output amount global_index) input_invalid_global_index) _ h in
      let (unlocked, others) = guard_passes _ input_spend_locked_out 0 _ more in
      let (rest, run, same) =
        and_redo-passes
          (ring_keys currency state unlock_height unlock_timestamp amount global_indexes) _
          others in
      (
        unp,
        or_fail-passes _ input_invalid_global_index read,
        unlocked,
        rest,
        sym (passes_eq same),
        ring_keys-Members amount global_indexes rest run,
      )

  module _ (check : RingSignatureArg → Bool × Bool) where
    -- An input of a transaction: its key image is new, its ring has a member, and the signature
    -- passes for the keys of the ring.
    abbrev pub SoundInput : ℕ → List (List ℕ) → ℕ → ℕ → List ℕ → ℕ → Type 0
    SoundInput tx_prefix_hash signatures input_index amount output_indexes key_image =
        (signature : List ℕ) × (get_elem? signatures input_index ≡ some signature)
        × (state.read_keyimage key_image ≡ none)
        × (0 < length output_indexes)
        × (keys : List ℕ) × Members amount (sum_indexes 0 output_indexes) keys
        × ((check (record {
          tx_prefix_hash = tx_prefix_hash;
          key_image = key_image;
          output_keys = keys;
          signatures = signature;
        })).0
            ≡ true)

    abbrev pub SoundInputs : ℕ → List (List ℕ) → ℕ → List TransactionInput → Type 0
    SoundInputs tx_prefix_hash signatures input_index [] = Unit
    SoundInputs tx_prefix_hash signatures input_index (coinbase_input block_index ∷ inputs) =
        SoundInputs tx_prefix_hash signatures (input_index + 1) inputs
    SoundInputs tx_prefix_hash signatures input_index
          (key_input amount output_indexes key_image ∷ inputs) =
        SoundInput tx_prefix_hash signatures input_index amount output_indexes key_image
        × SoundInputs tx_prefix_hash signatures (input_index + 1) inputs

    module _ (prefix_hash : Transaction → ℕ) where
      abbrev pub SoundTransactions : List Transaction → Type 0
      SoundTransactions [] = Unit
      SoundTransactions (tx ∷ txs) =
          SoundInputs (prefix_hash tx) tx.signatures 0 tx.inputs × SoundTransactions txs

    ring_arg-SoundInput :
        (hash : ℕ) (signatures : List (List ℕ)) (index amount : ℕ) (output_indexes : List ℕ)
        (key_image : ℕ) (arg : RingSignatureArg)
        → ring_arg currency state unlock_height unlock_timestamp hash signatures index amount
            output_indexes key_image
          ≡ redo_passes arg
        → (check arg).0 ≡ true
        → SoundInput hash signatures index amount output_indexes key_image
    unfolding ring_arg
    ring_arg-SoundInput hash signatures index amount output_indexes key_image arg h passes =
        let (signature, found, more) =
          and_redo-passes (or_throw (get_elem? signatures index)) _ h in
        let (unspent, more) = refused_passes _ input_keyimage_already_spent _ more in
        let (ring, more) = refused_passes _ input_unknown_type _ more in
        let (keys, run, same) =
          and_redo-passes
            (ring_keys currency state unlock_height unlock_timestamp amount
              (sum_indexes 0 output_indexes))
            _ more in
        (
          signature,
          or_throw-passes _ found,
          is_some-false (state.read_keyimage key_image) unspent,
          some_member output_indexes ring,
          keys,
          ring_keys-Members amount (sum_indexes 0 output_indexes) keys run,
          ap (λ (a : RingSignatureArg). (check a).0) (passes_eq same) ∙ passes,
        )

    ring_inputs-SoundInputs :
        (hash : ℕ) (signatures : List (List ℕ)) (index : ℕ) (inputs : List TransactionInput)
        (args : List RingSignatureArg)
        → ring_inputs currency state unlock_height unlock_timestamp hash signatures index inputs
          ≡ redo_passes args
        → all_pass check args ≡ true
        → SoundInputs hash signatures index inputs
    unfolding ring_inputs
    ring_inputs-SoundInputs hash signatures index [] args h all = tt
    ring_inputs-SoundInputs hash signatures index (coinbase_input block_index ∷ inputs) args h all =
        ring_inputs-SoundInputs hash signatures (index + 1) inputs args h all
    ring_inputs-SoundInputs hash signatures index
          (key_input amount output_indexes key_image ∷ inputs) args h all =
        let (arg, mine, more) =
          and_redo-passes
            (ring_arg currency state unlock_height unlock_timestamp hash signatures index amount
              output_indexes key_image)
            _ h in
        let (rest, run, same) =
          and_redo-passes
            (ring_inputs currency state unlock_height unlock_timestamp hash signatures (index + 1)
              inputs)
            _ more in
        let (one, others) =
          all_pass-append check (arg ∷ []) rest (ap (all_pass check) (passes_eq same) ∙ all) in
        (
          ring_arg-SoundInput hash signatures index amount output_indexes key_image arg mine
              (first arg one),
          ring_inputs-SoundInputs hash signatures (index + 1) inputs rest run others,
        )
      where
        first : (arg : RingSignatureArg) → all_pass check (arg ∷ []) ≡ true → (check arg).0 ≡ true
        first arg h = ground (arith, h)

    module _ (prefix_hash : Transaction → ℕ) where
      pub ring_transactions-Sound :
          (txs : List Transaction) (args : List RingSignatureArg)
          → ring_transactions currency state unlock_height unlock_timestamp prefix_hash txs
            ≡ redo_passes args
          → all_pass check args ≡ true
          → SoundTransactions prefix_hash txs
      unfolding ring_transactions
      ring_transactions-Sound [] args h all = tt
      ring_transactions-Sound (tx ∷ txs) args h all =
          let (mine, run, more) =
            and_redo-passes
              (ring_inputs currency state unlock_height unlock_timestamp (prefix_hash tx)
                tx.signatures 0 tx.inputs)
              _ h in
          let (rest, others, same) =
            and_redo-passes
              (ring_transactions currency state unlock_height unlock_timestamp prefix_hash txs) _
              more in
          let (one, two) =
            all_pass-append check mine rest (ap (all_pass check) (passes_eq same) ∙ all) in
          (
            ring_inputs-SoundInputs (prefix_hash tx) tx.signatures 0 tx.inputs mine run one,
            ring_transactions-Sound txs rest others two,
          )

      -- Where `start_work_get_error` found no error in a block and `signatures_valid` answers true
      -- after the threads worked on what it gave them: each input of the block's transactions has
      -- a signature, a key image that the state does not have, a ring that is not empty and whose
      -- members are outputs of the state that are not locked, and `check_ring_signature` passes
      -- for the keys of these members.
      pub start_work-IsSound :
          (block : Block) (args : List RingSignatureArg) (c : RingChecker)
          → start_work_get_error currency state unlock_height unlock_timestamp prefix_hash block
            ≡ redo_passes args
          → Reachable check (some args) c
          → signatures_valid c ≡ some true
          → SoundTransactions prefix_hash block.transactions
      unfolding start_work_get_error
      start_work-IsSound block args c h r valid =
          ring_transactions-Sound block.transactions args h
            (elim (signatures_valid_lem check args c r) [
              | inl answer ↦ some_eq (sym answer ∙ valid)
              | inr (waits, step, less) ↦ absurd (never waits valid)
            ])
        where
          never : {m : Option Bool} → m ≡ none → m ≡ some true → ⊥
          never e f = cc (sym e ∙ f)
