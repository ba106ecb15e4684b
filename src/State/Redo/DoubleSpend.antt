-- ===== src/State/Redo/DoubleSpend.antt =====
-- A block that is redone spends no key image twice, and none that was spent before it.
use naza.Common.Options.{some_eq}
use naza.Common.{ℕ, suc, ◌+◌, List, [], ◌∷◌, ◌++◌, Option, none, some, length}
use naza.Common.{◌≡◌, refl, sym, ap, ◌∙◌, ◌⊎◌, inl, inr, arith}
use naza.Common.{Bool, true, false, ◌||◌, ◌==◌, if◌then◌else◌, Bool-cases}
use naza.Common.Options.{◌>>=◌, >>=-eq-some}
use naza.Transaction.{TransactionInput, coinbase_input, key_input, TransactionOutput, Transaction}
use naza.Currency.{Currency}
use naza.State.{IBlockChainState}
use naza.State.Delta.{DeltaState, store_keyimage, push_amount_output, spend_output}
use naza.Common.{not, if◌then◌else◌}
use naza.State.Redo.{RedoError}
use naza.State.Redo.{
  Redone, redo_throws, redo_fails, redo_passes, and_redo, or_throw, delta_reader, empty_delta,
  spend_single, RingCheck, redo_inputs, redo_outputs, give_keyimages, give_outputs, give_amounts,
  give_spent, apply_to_delta, redo_transaction_get_error, redo_transactions, check_key_input,
}
use naza.State.Redo.Images.{
  Added, Added-cong, Added-append, Added-beside, has, images_in, images_of, store_keyimage-Added,
}

pub passes_eq : {A : Type 0} {x y : A} → redo_passes x ≡ redo_passes y → x ≡ y
passes_eq h = cc

-- What a chain that passes did first.
pub and_redo-passes :
    {A B : Type 0} (m : Redone A) (f : A → Redone B) {b : B}
    → and_redo m f ≡ redo_passes b
    → (a : A) × (m ≡ redo_passes a) × (f a ≡ redo_passes b)
and_redo-passes redo_throws f h = cc
and_redo-passes (redo_fails error conflict_height) f h = cc
and_redo-passes (redo_passes a) f h = (a, refl, h)

pub or_throw-passes : {A : Type 0} (m : Option A) {a : A} → or_throw m ≡ redo_passes a → m ≡ some a
or_throw-passes none h = cc
or_throw-passes (some a) h = ap some (passes_eq h)

pub spend_single-keeps :
    (t : DeltaState) (amount : ℕ) (xs : List ℕ) → (spend_single t amount xs).keyimages ≡ t.keyimages
unfolding spend_output
spend_single-keeps t amount [] = refl
spend_single-keeps t amount (x ∷ []) = refl
spend_single-keeps t amount (x ∷ y ∷ rest) = refl

pub redo_outputs-keeps :
    (unlock_time : ℕ) (outputs : List TransactionOutput) (t : DeltaState) (p : IBlockChainState)
    → (redo_outputs unlock_time outputs t p).0.keyimages ≡ t.keyimages
unfolding redo_outputs push_amount_output
redo_outputs-keeps unlock_time [] t p = refl
redo_outputs-keeps unlock_time (output ∷ outputs) t p = redo_outputs-keeps unlock_time outputs _ p

give_outputs-keeps :
    (amount : ℕ) (outputs : List (ℕ × ℕ)) (d : DeltaState) (p : IBlockChainState)
    → (give_outputs amount outputs d p).keyimages ≡ d.keyimages
unfolding give_outputs push_amount_output
give_outputs-keeps amount [] d p = refl
give_outputs-keeps amount ((unlock_time, pk) ∷ rest) d p = give_outputs-keeps amount rest _ p

give_amounts-keeps :
    (entries : List (ℕ × List (ℕ × ℕ))) (d : DeltaState) (p : IBlockChainState)
    → (give_amounts entries d p).keyimages ≡ d.keyimages
unfolding give_amounts
give_amounts-keeps [] d p = refl
give_amounts-keeps ((amount, outputs) ∷ rest) d p =
    give_amounts-keeps rest (give_outputs amount outputs d p) p
    ∙ give_outputs-keeps amount outputs d p

give_spent-keeps :
    (entries : List (ℕ × ℕ)) (d : DeltaState) → (give_spent entries d).keyimages ≡ d.keyimages
unfolding give_spent spend_output
give_spent-keeps [] d = refl
give_spent-keeps ((amount, global_index) ∷ rest) d = give_spent-keeps rest _

-- What a delta gets from another one: it had none of it.
pub give_keyimages-has :
    (kis : List (ℕ × ℕ)) (d e : DeltaState)
    → give_keyimages kis d ≡ some e
    → ((k : ℕ) → has e.keyimages k ≡ (has kis k || has d.keyimages k))
      × ((k : ℕ) → has kis k ≡ true → has d.keyimages k ≡ false)
unfolding give_keyimages
give_keyimages-has [] d e h =
    (λ k. ap (λ (f : DeltaState). has f.keyimages k) (sym (some_eq h)), λ k x. ground (arith, x))
give_keyimages-has ((key_image, height) ∷ rest) d e h =
    let (f, stored, more) =
      >>=-eq-some (store_keyimage d key_image height) (λ f. give_keyimages rest f) (as_bind _ h) in
    let (new, grown) = store_keyimage-Added d key_image height f stored in
    let (images, apart) = give_keyimages-has rest f e more in
    (
      λ k. ground (arith, images k, grown k),
      λ k x. either f k (Bool-cases (k == key_image)) x new (grown k) (apart k),
    )
  where
    as_bind :
        (m : Option DeltaState)
        → elim m as (λ x. Option DeltaState) [ none ↦ none | some f ↦ give_keyimages rest f ]
          ≡ some e
        → (m >>= λ f. give_keyimages rest f) ≡ some e
    as_bind none x = x
    as_bind (some f) x = x

    either :
        (f : DeltaState) (k : ℕ)
        → ((k == key_image) ≡ true) ⊎ ((k == key_image) ≡ false)
        → has ((key_image, height) ∷ rest) k ≡ true
        → has d.keyimages key_image ≡ false
        → has f.keyimages k ≡ (k == key_image || has d.keyimages k)
        → (has rest k ≡ true → has f.keyimages k ≡ false)
        → has d.keyimages k ≡ false
    either f k (inl same) x new grown apart =
        let e : k ≡ key_image = ground arith in ap (λ (j : ℕ). has d.keyimages j) e ∙ new
    either f k (inr differ) x new grown apart =
        ground (arith, apart (ground (arith, x, differ)), grown)

apply_to_delta-has :
    (t d : DeltaState) (p : IBlockChainState) (e : DeltaState)
    → apply_to_delta t d p ≡ some e
    → ((k : ℕ) → has e.keyimages k ≡ (has t.keyimages k || has d.keyimages k))
      × ((k : ℕ) → has t.keyimages k ≡ true → has d.keyimages k ≡ false)
unfolding apply_to_delta
apply_to_delta-has t d p e h =
    let (f, given, same) = given_first _ h in
    let (images, apart) = give_keyimages-has t.keyimages d f given in
    (
      λ k.
          ap (λ (g : DeltaState). has g.keyimages k) (sym same)
          ∙ ap (λ (ks : List (ℕ × ℕ)). has ks k)
              (give_spent-keeps t.spent_outputs (give_amounts t.global_amounts f p)
                ∙ give_amounts-keeps t.global_amounts f p)
          ∙ images k,
      apart,
    )
  where
    given_first :
        (m : Option DeltaState)
        → elim m as (λ x. Option DeltaState) [
          | none ↦ none
          | some f ↦ some (give_spent t.spent_outputs (give_amounts t.global_amounts f p))
        ]
          ≡ some e
        → (f : DeltaState) × (m ≡ some f)
          × (give_spent t.spent_outputs (give_amounts t.global_amounts f p) ≡ e)
    given_first none x = cc
    given_first (some f) x = (f, refl, some_eq x)

pub guard_passes :
    {A : Type 0} (b : Bool) (error : RedoError) (n : ℕ) (m : Redone A) {a : A}
    → (if not b then redo_fails error n else m) ≡ redo_passes a
    → (b ≡ true) × (m ≡ redo_passes a)
guard_passes true error n m h = (refl, h)
guard_passes false error n m h = cc

module _ (currency : Currency) (check_ring_signature : RingCheck) where
  -- The loop over the inputs adds their key images to the delta.
  redo_inputs-Added :
      (check_sigs : Bool) (hash : ℕ) (signatures : List (List ℕ)) (index : ℕ)
      (inputs : List TransactionInput) (t : DeltaState) (p : IBlockChainState) (conflict : ℕ)
      (r : DeltaState × ℕ)
      → redo_inputs currency check_ring_signature check_sigs hash signatures index inputs t p
          conflict
        ≡ redo_passes r
      → Added (has t.keyimages) (images_in inputs) (has r.0.keyimages)
  unfolding redo_inputs
  redo_inputs-Added check_sigs hash signatures index [] t p conflict r h =
      λ k. ap (λ (x : DeltaState × ℕ). has x.0.keyimages k) (sym (passes_eq h))
  redo_inputs-Added check_sigs hash signatures index (coinbase_input block_index ∷ inputs) t p
        conflict r h =
      redo_inputs-Added check_sigs hash signatures (index + 1) inputs t p conflict r h
  redo_inputs-Added check_sigs hash signatures index
        (key_input amount output_indexes key_image ∷ inputs) t p conflict r h =
      let checks =
        if check_sigs
        then check_key_input currency check_ring_signature hash signatures index t p amount
            output_indexes key_image conflict
        else redo_passes conflict in
      let store =
        or_throw (store_keyimage (spend_single t amount output_indexes) key_image t.block_height) in
      let (height, checked, more) = and_redo-passes checks _ h in
      let (u, stored, rest) = and_redo-passes store _ more in
      let kept = spend_single-keeps t amount output_indexes in
      let one =
        store_keyimage-Added (spend_single t amount output_indexes) key_image t.block_height u
          (or_throw-passes _ stored) in
      Added-append (has t.keyimages) (has u.keyimages) (has r.0.keyimages) (key_image ∷ [])
        (images_in inputs)
        (Added-cong (has (spend_single t amount output_indexes).keyimages) (has t.keyimages)
          (has u.keyimages) (has u.keyimages) (key_image ∷ [])
          (λ k. ap (λ (ks : List (ℕ × ℕ)). has ks k) (sym kept)) (λ k. refl) one)
        (redo_inputs-Added check_sigs hash signatures (index + 1) inputs u p height r rest)

  module _ (prefix_hash : Transaction → ℕ) where
    pub redo_transaction-Added :
        (tx : Transaction) (d : DeltaState) (p : IBlockChainState) (check_sigs : Bool)
        (r : DeltaState × List ℕ × ℕ)
        → redo_transaction_get_error currency check_ring_signature prefix_hash tx d p check_sigs
          ≡ redo_passes r
        → Added (has d.keyimages) (images_in tx.inputs) (has r.0.keyimages)
    unfolding redo_transaction_get_error
    redo_transaction-Added tx d p check_sigs r h =
        let own = delta_reader d p in
        let inputs =
          redo_inputs currency check_ring_signature check_sigs (prefix_hash tx) tx.signatures 0
            tx.inputs (empty_delta d) own 0 in
        let (q, ins, more) = and_redo-passes inputs _ h in
        let given =
          or_throw (apply_to_delta (redo_outputs tx.unlock_time tx.outputs q.0 own).0 d p) in
        let (e, applied, same) = and_redo-passes given _ more in
        let added =
          redo_inputs-Added check_sigs (prefix_hash tx) tx.signatures 0 tx.inputs (empty_delta d)
            own 0 q ins in
        let pushed = (redo_outputs tx.unlock_time tx.outputs q.0 own).0 in
        let kept = redo_outputs-keeps tx.unlock_time tx.outputs q.0 own in
        let (images, apart) = apply_to_delta-has pushed d p e (or_throw-passes _ applied) in
        Added-cong (λ k. false || has d.keyimages k) (has d.keyimages)
          (λ k. has q.0.keyimages k || has d.keyimages k) (has r.0.keyimages) (images_in tx.inputs)
          (λ k. refl)
          (λ k.
            ap (λ (x : DeltaState × List ℕ × ℕ). has x.0.keyimages k) (sym (passes_eq same))
            ∙ images k
            ∙ ap (λ (ks : List (ℕ × ℕ)). has ks k || has d.keyimages k) kept)
          (Added-beside (λ k. false) (has q.0.keyimages) (has d.keyimages) (images_in tx.inputs)
            (λ k x. apart k (ap (λ (ks : List (ℕ × ℕ)). has ks k) kept ∙ x)) added)

    pub redo_transactions-Added :
        (txs : List Transaction) (d : DeltaState) (p : IBlockChainState)
        (r : DeltaState × List (List ℕ))
        → redo_transactions currency check_ring_signature prefix_hash txs d p ≡ redo_passes r
        → Added (has d.keyimages) (images_of txs) (has r.0.keyimages) × (length r.1 ≡ length txs)
    unfolding redo_transactions
    redo_transactions-Added [] d p r h = (
      λ k. ap (λ (x : DeltaState × List (List ℕ)). has x.0.keyimages k) (sym (passes_eq h)),
      ap (λ (x : DeltaState × List (List ℕ)). length x.1) (sym (passes_eq h)),
    )
    redo_transactions-Added (tx ∷ txs) d p r h =
        let first =
          redo_transaction_get_error currency check_ring_signature prefix_hash tx d p false in
        let (q, one, more) = and_redo-passes first _ h in
        let others = redo_transactions currency check_ring_signature prefix_hash txs q.0 p in
        let (rest, others, same) = and_redo-passes others _ more in
        let (added, count) = redo_transactions-Added txs q.0 p rest others in
        (
          Added-cong (has d.keyimages) (has d.keyimages) (has rest.0.keyimages) (has r.0.keyimages)
              (images_in tx.inputs ++ images_of txs) (λ k. refl)
              (λ k.
                ap (λ (x : DeltaState × List (List ℕ)). has x.0.keyimages k) (sym (passes_eq same)))
              (Added-append (has d.keyimages) (has q.0.keyimages) (has rest.0.keyimages)
                (images_in tx.inputs) (images_of txs) (redo_transaction-Added tx d p false q one)
                added),
          ap (λ (x : DeltaState × List (List ℕ)). length x.1) (sym (passes_eq same))
              ∙ ap (λ (n : ℕ). suc n) count,
        )
