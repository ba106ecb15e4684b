-- ===== src/Pool/Calm.antt =====
-- The check of a transaction that `validate_semantic` accepts throws no exception.
use Prim.Native.Nat.{max}
use naza.Common.{ℕ, zero, suc, ◌+◌, ◌≤◌, ◌<◌}
use naza.Common.{◌≡◌, refl, sym, ap, ◌∙◌, ◌≢◌, inl, inr, arith}
use naza.Common.{Bool, true, false, ◌||◌, ◌==◌, if◌then◌else◌, Bool-cases, ==_refl}
use naza.Common.{Option, none, some, List, [], ◌∷◌, length, get_elem?}
use naza.Common.Options.{Option-cases}
use naza.Transaction.{TransactionInput, coinbase_input, key_input, Transaction}
use naza.Semantic.{contains, is_empty}
use naza.Semantic.Sound.{Fresh}
use naza.Currency.{Currency, is_transaction_spend_time_unlocked}
use naza.State.{IBlockChainState, is_some}
use naza.State.Delta.{DeltaState, insert, store_keyimage, read_amount_output, read_keyimage}
use naza.State.Redo.{
  Redone, redo_throws, redo_fails, redo_passes, and_redo, or_throw, delta_reader, empty_delta,
  input_corrupted_signatures, input_invalid_signatures, spend_single, RingCheck, output_keys,
  check_key_input, redo_inputs, redo_outputs, give_keyimages, give_amounts, give_spent,
  apply_to_delta, redo_transaction_get_error, sum_indexes,
}
use naza.State.Redo.Images.{has, store_keyimage-Added}
use naza.State.Redo.DoubleSpend.{spend_single-keeps, or_throw-passes}
use naza.State.Redo.Holds.{Holds, HasUnique, redo_outputs-Holds}
use naza.State.Redo.Content.{redo_inputs-Holds}

abbrev pub IsCalm : {A : Type 0} → Redone A → Type 0
IsCalm m = m ≢ redo_throws

and_redo-IsCalm :
    {A B : Type 0} (m : Redone A) (f : A → Redone B)
    → IsCalm m
    → ((a : A) → m ≡ redo_passes a → IsCalm (f a))
    → IsCalm (and_redo m f)
and_redo-IsCalm redo_throws f h k = absurd (h refl)
and_redo-IsCalm (redo_fails error n) f h k = λ e. cc e
and_redo-IsCalm (redo_passes a) f h k = k a refl

passes-IsCalm : {A : Type 0} (a : A) → IsCalm (redo_passes a)
passes-IsCalm a = λ e. cc e

or_throw-IsCalm : {A : Type 0} (m : Option A) → ((a : A) × (m ≡ some a)) → IsCalm (or_throw m)
or_throw-IsCalm m (a, h) = rw h (passes-IsCalm a)

get_elem?-some :
    (xs : List (List ℕ)) (i : ℕ) → i < length xs → (x : List ℕ) × (get_elem? xs i ≡ some x)
get_elem?-some [] i h = absurd (omega (arith, h))
get_elem?-some (x ∷ xs) zero h = (x, refl)
get_elem?-some (x ∷ xs) (suc i) h = get_elem?-some xs i (omega (arith, h))

store_keyimage-some :
    (d : DeltaState) (key_image height : ℕ)
    → has d.keyimages key_image ≡ false
    → (e : DeltaState) × (store_keyimage d key_image height ≡ some e)
unfolding store_keyimage
store_keyimage-some d key_image height h =
    (record d { keyimages = insert d.keyimages key_image height }, rw h refl)

give_more :
    (image height : ℕ) (rest : List (ℕ × ℕ)) (d f e : DeltaState)
    → store_keyimage d image height ≡ some f
    → give_keyimages rest f ≡ some e
    → give_keyimages ((image, height) ∷ rest) d ≡ some e
unfolding give_keyimages
give_more image height rest d f e stored given = rw (give_keyimages, stored) given

give_keyimages-some :
    (kis : List (ℕ × ℕ)) (d : DeltaState)
    → HasUnique kis
    → ((k : ℕ) → has kis k ≡ true → has d.keyimages k ≡ false)
    → (e : DeltaState) × (give_keyimages kis d ≡ some e)
unfolding give_keyimages
give_keyimages-some [] d u free = (d, refl)
give_keyimages-some ((image, height) ∷ rest) d u free =
    let (f, stored) = store_keyimage-some d image height (free image (rw (==_refl image) refl)) in
    let (new, grown) = store_keyimage-Added d image height f stored in
    let (e, given) = give_keyimages-some rest f u.1 (λ k h. later f k h (grown k) (free k)) in
    (e, give_more image height rest d f e stored given)
  where
    later :
        (f : DeltaState) (k : ℕ)
        → has rest k ≡ true
        → has f.keyimages k ≡ (k == image || has d.keyimages k)
        → (has ((image, height) ∷ rest) k ≡ true → has d.keyimages k ≡ false)
        → has f.keyimages k ≡ false
    later f k h grown free = elim (Bool-cases (k == image)) [
      | inl e ↦
          let e' : k ≡ image = ground arith in
          let h' : false ≡ true = sym (ap is_some u.0) ∙ sym (ap (has rest) e') ∙ h in
          absurd (cc h')
      | inr ne ↦ grown ∙ rw ne (free (rw ne h))
    ]

applied :
    (t d : DeltaState) (p : IBlockChainState) (f : DeltaState)
    → give_keyimages t.keyimages d ≡ some f
    → (e : DeltaState) × (apply_to_delta t d p ≡ some e)
unfolding apply_to_delta
applied t d p f given = (
  give_spent t.spent_outputs (give_amounts t.global_amounts f p),
  rw (apply_to_delta, given) refl,
)

module _ (currency : Currency) where
  output_keys-IsCalm :
      (t : DeltaState) (p : IBlockChainState) (amount : ℕ) (indexes : List ℕ) (height : ℕ)
      → IsCalm (output_keys currency t p amount indexes height)
  unfolding output_keys
  output_keys-IsCalm t p amount [] height = passes-IsCalm ([], height)
  output_keys-IsCalm t p amount (i ∷ indexes) height =
      elim (Option-cases (read_amount_output t p amount i)) [
        | inl missing ↦ rw (output_keys, missing) (λ e. cc e)
        | inr (unp, found) ↦
            let next = max height unp.height in
            let rest = output_keys-IsCalm t p amount indexes next in
            elim (Bool-cases (
              is_transaction_spend_time_unlocked currency unp.unlock_time t.block_height
                t.unlock_timestamp)) [
                  | inl free ↦
                      rw (output_keys, found, free)
                        (and_redo-IsCalm (output_keys currency t p amount indexes next) _ rest
                          (λ r e. passes-IsCalm (unp.public_key ∷ r.0, r.1)))
                  | inr locked ↦ rw (output_keys, found, locked) (λ e. cc e)
                ]
      ]

  module _ (check_ring_signature : RingCheck) where
    check_key_input-IsCalm :
        (hash : ℕ) (signatures : List (List ℕ)) (index : ℕ) (t : DeltaState) (p : IBlockChainState)
        (amount : ℕ) (indexes : List ℕ) (key_image conflict : ℕ)
        → index < length signatures
        → IsCalm (
            check_key_input currency check_ring_signature hash signatures index t p amount indexes
              key_image conflict)
    unfolding check_key_input
    check_key_input-IsCalm hash signatures index t p amount indexes key_image conflict inside =
        elim (Option-cases (read_keyimage t p key_image)) [
          | inr (height, there) ↦ rw (check_key_input, there) (λ e. cc e)
          | inl free ↦ elim (Bool-cases (is_empty indexes)) [
            | inl empty ↦ rw (check_key_input, free, empty) (λ e. cc e)
            | inr ring ↦
                rw (check_key_input, free, ring)
                  (and_redo-IsCalm
                    (output_keys currency t p amount (sum_indexes 0 indexes) conflict) _
                    (output_keys-IsCalm t p amount (sum_indexes 0 indexes) conflict)
                    (λ keys e.
                      and_redo-IsCalm (or_throw (get_elem? signatures index)) _
                        (or_throw-IsCalm _ (get_elem?-some signatures index inside))
                        (λ signature e'.
                          verdict (check_ring_signature hash key_image keys.0 signature) keys.1)))
          ]
        ]
      where
        verdict :
            (checked : Bool × Bool) (n : ℕ)
            → IsCalm (
                if checked.0
                then redo_passes n
                else if checked.1
                then redo_fails input_corrupted_signatures n
                else redo_fails input_invalid_signatures n)
        verdict (true, b) n = λ e. cc e
        verdict (false, true) n = λ e. cc e
        verdict (false, false) n = λ e. cc e

    redo_inputs-IsCalm :
        (check_sigs : Bool) (hash : ℕ) (signatures : List (List ℕ)) (index : ℕ)
        (inputs : List TransactionInput) (t : DeltaState) (p : IBlockChainState) (conflict : ℕ)
        (seen : List ℕ)
        → Fresh seen inputs
        → index + length inputs ≤ length signatures
        → ((k : ℕ) → has t.keyimages k ≡ true → contains seen k ≡ true)
        → IsCalm (
            redo_inputs currency check_ring_signature check_sigs hash signatures index inputs t p
              conflict)
    unfolding redo_inputs
    redo_inputs-IsCalm check_sigs hash signatures index [] t p conflict seen fresh enough within =
        passes-IsCalm (t, conflict)
    redo_inputs-IsCalm check_sigs hash signatures index (coinbase_input block_index ∷ inputs) t p
          conflict seen fresh enough within =
        redo_inputs-IsCalm check_sigs hash signatures (index + 1) inputs t p conflict seen fresh
          (omega (arith, enough)) within
    redo_inputs-IsCalm check_sigs hash signatures index
          (key_input amount indexes key_image ∷ inputs) t p conflict seen (new, fresh) enough
          within =
        let marked = spend_single t amount indexes in
        let kept = spend_single-keeps t amount indexes in
        let free : has marked.keyimages key_image ≡ false =
          ap (λ (l : List (ℕ × ℕ)). has l key_image) kept
          ∙ not_seen key_image new (within key_image) in
        and_redo-IsCalm
          (if check_sigs
            then check_key_input currency check_ring_signature hash signatures index t p amount
                indexes key_image conflict
            else redo_passes conflict)
          _ (checks check_sigs)
          (λ height e.
            and_redo-IsCalm (or_throw (store_keyimage marked key_image t.block_height)) _
              (or_throw-IsCalm _ (store_keyimage-some marked key_image t.block_height free))
              (λ u stored.
                redo_inputs-IsCalm check_sigs hash signatures (index + 1) inputs u p height
                  (key_image ∷ seen) fresh (omega (arith, enough))
                  (λ k h.
                    grown u k h
                      ((store_keyimage-Added marked key_image t.block_height u
                            (or_throw-passes _ stored)).1
                          k
                        ∙ ap (λ (l : List (ℕ × ℕ)). k == key_image || has l k) kept)
                      (within k))))
      where
        checks :
            (b : Bool)
            → IsCalm (
                if b
                then check_key_input currency check_ring_signature hash signatures index t p amount
                    indexes key_image conflict
                else redo_passes conflict)
        checks true =
            check_key_input-IsCalm hash signatures index t p amount indexes key_image conflict
              (omega (arith, enough))
        checks false = λ e. cc e

        not_seen :
            (k : ℕ)
            → contains seen k ≡ false
            → (has t.keyimages k ≡ true → contains seen k ≡ true)
            → has t.keyimages k ≡ false
        not_seen k new within = elim (Bool-cases (has t.keyimages k)) [
          | inl there ↦ absurd (cc (sym new ∙ within there))
          | inr free ↦ free
        ]

        grown :
            (u : DeltaState) (k : ℕ)
            → has u.keyimages k ≡ true
            → has u.keyimages k ≡ (k == key_image || has t.keyimages k)
            → (has t.keyimages k ≡ true → contains seen k ≡ true)
            → contains (key_image ∷ seen) k ≡ true
        grown u k h e within = elim (Bool-cases (k == key_image)) [
          | inl b ↦ rw b refl
          | inr b ↦ rw b (within (sym (ap (λ (c : Bool). c || has t.keyimages k) b) ∙ sym e ∙ h))
        ]

    module _ (prefix_hash : Transaction → ℕ) where
      -- x
      pub redo_transaction-IsCalm :
          (tx : Transaction) (d : DeltaState) (p : IBlockChainState) (check_sigs : Bool)
          → d.keyimages ≡ []
          → Fresh [] tx.inputs
          → length tx.signatures ≡ length tx.inputs
          → IsCalm (
              redo_transaction_get_error currency check_ring_signature prefix_hash tx d p
                check_sigs)
      unfolding redo_transaction_get_error
      redo_transaction-IsCalm tx d p check_sigs nothing fresh signed =
          let own = delta_reader d p in
          let inputs =
            redo_inputs currency check_ring_signature check_sigs (prefix_hash tx) tx.signatures 0
              tx.inputs (empty_delta d) own 0 in
          let start : Holds (empty_delta d) d.block_height (λ k. none) (λ a. []) [] = record {
            found = λ k. refl;
            pushed = λ a. refl;
            spent = refl;
            ordered = tt;
            unique = tt;
            block_height = refl;
          } in
          and_redo-IsCalm inputs _
            (redo_inputs-IsCalm check_sigs (prefix_hash tx) tx.signatures 0 tx.inputs
              (empty_delta d) own 0 [] fresh (omega (arith, signed)) (λ k h. h))
            (λ r e.
              let held =
                redo_inputs-Holds currency check_ring_signature check_sigs (prefix_hash tx)
                  tx.signatures 0 tx.inputs (empty_delta d) own 0 r d.block_height (λ k. none)
                  (λ a. []) [] start e in
              let whole =
                redo_outputs-Holds tx.unlock_time tx.outputs r.0 own d.block_height _ (λ a. []) _
                  held in
              let pushed = (redo_outputs tx.unlock_time tx.outputs r.0 own).0 in
              let (f, given) =
                give_keyimages-some pushed.keyimages d whole.unique
                  (λ k h. ap (λ (l : List (ℕ × ℕ)). has l k) nothing) in
              and_redo-IsCalm (or_throw (apply_to_delta pushed d p)) _
                (or_throw-IsCalm _ (applied pushed d p f given)) (λ x e'. passes-IsCalm _))
