-- ===== src/State/Redo/Content.antt =====
-- What the delta of a block holds after its transactions.
use mathlib.Core.List.{append-nil, append_assoc}
use mathlib.Core.Path.{subst, fun_ext}
use native.Mathlib.Decide.{ℕ_discrete}
use naza.Common.{ℕ, ◌+◌}
use naza.Common.{◌≡◌, refl, sym, ap, ◌∙◌, arith}
use naza.Common.{Bool, false, if◌then◌else◌}
use naza.Common.{none, some, List, [], ◌∷◌, ◌++◌}
use naza.Transaction.{TransactionInput, coinbase_input, key_input, Transaction}
use naza.State.{IBlockChainState, put}
use naza.State.Store.{put_eq, put_ne}
use naza.State.Delta.{DeltaState, store_keyimage}
use naza.Currency.{Currency}
use naza.State.Redo.{
  redo_passes, or_throw, delta_reader, empty_delta, spend_single, RingCheck, redo_inputs,
  redo_outputs, apply_to_delta, redo_transaction_get_error, redo_transactions, check_key_input,
}
use naza.State.Built.{Images, Outputs, or_else, add_output}
use naza.State.Built.Content.{
  MadeOutput, add_images, add_outputs, add_images-append, add_outputs-append, outputs_in,
  outputs_made, single, singles_in, singles_of,
}
use naza.State.Redo.Holds.{Holds, store_keyimage-Holds, spend_single-Holds, redo_outputs-Holds}
use naza.State.Redo.Given.{Holds-cong, apply_to_delta-Holds}
use naza.State.Redo.DoubleSpend.{passes_eq, and_redo-passes, or_throw-passes}
use naza.State.Redo.Images.{images_in, images_of}

-- To add to one of two things that are joined is to add to what they are together.
or_else-add_images :
    (height : ℕ) (more old : Images) (ks : List ℕ) (k : ℕ)
    → or_else (add_images height more ks k) (old k)
      ≡ add_images height (λ j. or_else (more j) (old j)) ks k
or_else-add_images height more old [] k = refl
or_else-add_images height more old (x ∷ ks) k =
    or_else-add_images height (put more x (some height)) old ks k
    ∙ ap (λ (f : Images). add_images height f ks k) (fun_ext (joined x))
  where
    joined :
        (x j : ℕ)
        → or_else (put more x (some height) j) (old j)
          ≡ put (λ i. or_else (more i) (old i)) x (some height) j
    joined x j = grind arith

append-add_outputs :
    (old more : Outputs) (os : List MadeOutput) (a : ℕ)
    → old a ++ add_outputs more os a ≡ add_outputs (λ b. old b ++ more b) os a
append-add_outputs old more [] a = refl
append-add_outputs old more ((amount, output) ∷ os) a =
    append-add_outputs old (add_output more amount output) os a
    ∙ ap (λ (f : Outputs). add_outputs f os a) (fun_ext joined)
  where
    joined :
        (b : ℕ)
        → old b ++ add_output more amount output b
          ≡ add_output (λ c. old c ++ more c) amount output b
    joined b = elim (ℕ_discrete b amount) [
      | yes e ↦
          rw
            (
              put_eq more amount (more amount ++ output ∷ []) b e,
              put_eq (λ c. old c ++ more c) amount ((old amount ++ more amount) ++ output ∷ []) b e,
              e,
            )
            (sym (append_assoc (old amount) (more amount) (output ∷ [])))
      | no ne ↦
          rw
            (
              put_ne more amount (more amount ++ output ∷ []) b ne,
              put_ne (λ c. old c ++ more c) amount ((old amount ++ more amount) ++ output ∷ []) b
                  ne,
            )
            refl
    ]

module _ (currency : Currency) (check_ring_signature : RingCheck) where
  pub redo_inputs-Holds :
      (check_sigs : Bool) (hash : ℕ) (signatures : List (List ℕ)) (index : ℕ)
      (inputs : List TransactionInput) (t : DeltaState) (p : IBlockChainState) (conflict : ℕ)
      (r : DeltaState × ℕ) (height : ℕ) (images : Images) (outputs : Outputs)
      (singles : List (ℕ × ℕ))
      → Holds t height images outputs singles
      → redo_inputs currency check_ring_signature check_sigs hash signatures index inputs t p
          conflict
        ≡ redo_passes r
      → Holds r.0 height
          (add_images height images (images_in inputs))
          outputs
          (singles ++ singles_in inputs)
  unfolding redo_inputs
  redo_inputs-Holds check_sigs hash signatures index [] t p conflict r height images outputs singles
        held h =
      subst (λ (x : DeltaState × ℕ). Holds x.0 height images outputs (singles ++ [])) (passes_eq h)
        (subst (Holds t height images outputs) (sym (append-nil singles)) held)
  redo_inputs-Holds check_sigs hash signatures index (coinbase_input block_index ∷ inputs) t p
        conflict r height images outputs singles held h =
      redo_inputs-Holds check_sigs hash signatures (index + 1) inputs t p conflict r height images
        outputs singles held h
  redo_inputs-Holds check_sigs hash signatures index
        (key_input amount output_indexes key_image ∷ inputs) t p conflict r height images outputs
        singles held h =
      let checks =
        if check_sigs
        then check_key_input currency check_ring_signature hash signatures index t p amount
            output_indexes key_image conflict
        else redo_passes conflict in
      let marked = spend_single t amount output_indexes in
      let (seen, checked, more) = and_redo-passes checks _ h in
      let (u, stored, rest) =
        and_redo-passes (or_throw (store_keyimage marked key_image t.block_height)) _ more in
      let stored' =
        ap (λ (n : ℕ). store_keyimage marked key_image n) (sym held.block_height)
        ∙ or_throw-passes _ stored in
      subst (Holds r.0 height (add_images height images (key_image ∷ images_in inputs)) outputs)
        (append_assoc singles (single amount output_indexes) (singles_in inputs))
        (redo_inputs-Holds check_sigs hash signatures (index + 1) inputs u p seen r height
          (put images key_image (some height)) outputs (singles ++ single amount output_indexes)
          (store_keyimage-Holds marked key_image height height images outputs
            (singles ++ single amount output_indexes) u
            (spend_single-Holds t amount output_indexes height images outputs singles held) stored')
          rest)

  module _ (prefix_hash : Transaction → ℕ) where
    pub redo_transaction-Holds :
        (tx : Transaction) (d : DeltaState) (p : IBlockChainState) (check_sigs : Bool)
        (r : DeltaState × List ℕ × ℕ) (height : ℕ) (images : Images) (outputs : Outputs)
        (singles : List (ℕ × ℕ))
        → Holds d height images outputs singles
        → redo_transaction_get_error currency check_ring_signature prefix_hash tx d p check_sigs
          ≡ redo_passes r
        → Holds r.0 height
            (add_images height images (images_in tx.inputs))
            (add_outputs outputs (outputs_in tx.unlock_time tx.outputs))
            (singles ++ singles_in tx.inputs)
    unfolding redo_transaction_get_error
    redo_transaction-Holds tx d p check_sigs r height images outputs singles held h =
        let own = delta_reader d p in
        let inputs =
          redo_inputs currency check_ring_signature check_sigs (prefix_hash tx) tx.signatures 0
            tx.inputs (empty_delta d) own 0 in
        let (q, ins, more) = and_redo-passes inputs _ h in
        let pushed = (redo_outputs tx.unlock_time tx.outputs q.0 own).0 in
        let (e, applied, same) = and_redo-passes (or_throw (apply_to_delta pushed d p)) _ more in
        let made = outputs_in tx.unlock_time tx.outputs in
        let ks = images_in tx.inputs in
        let start : Holds (empty_delta d) height (λ k. none) (λ a. []) [] = record {
          found = λ k. refl;
          pushed = λ a. refl;
          spent = refl;
          ordered = tt;
          unique = tt;
          block_height = held.block_height;
        } in
        let spending =
          redo_inputs-Holds check_sigs (prefix_hash tx) tx.signatures 0 tx.inputs (empty_delta d)
            own 0 q height (λ k. none) (λ a. []) [] start ins in
        let whole =
          redo_outputs-Holds tx.unlock_time tx.outputs q.0 own height
            (add_images height (λ k. none) ks) (λ a. []) (singles_in tx.inputs) spending in
        let given =
          apply_to_delta-Holds pushed d e p height images (add_images height (λ k. none) ks) outputs
            (add_outputs (λ a. []) made) singles (singles_in tx.inputs) held whole
            (or_throw-passes _ applied) in
        subst
          (λ (x : DeltaState × List ℕ × ℕ).
            Holds x.0 height (add_images height images ks) (add_outputs outputs made)
              (singles ++ singles_in tx.inputs))
          (passes_eq same)
          (Holds-cong e height _ (add_images height images ks) _ (add_outputs outputs made)
            (singles ++ singles_in tx.inputs) (or_else-add_images height (λ k. none) images ks)
            (λ a.
              append-add_outputs outputs (λ b. []) made a
              ∙ ap (λ (f : Outputs). add_outputs f made a) (fun_ext (λ b. append-nil (outputs b))))
            given)

    pub redo_transactions-Holds :
        (txs : List Transaction) (d : DeltaState) (p : IBlockChainState)
        (r : DeltaState × List (List ℕ)) (height : ℕ) (images : Images) (outputs : Outputs)
        (singles : List (ℕ × ℕ))
        → Holds d height images outputs singles
        → redo_transactions currency check_ring_signature prefix_hash txs d p ≡ redo_passes r
        → Holds r.0 height
            (add_images height images (images_of txs))
            (add_outputs outputs (outputs_made txs))
            (singles ++ singles_of txs)
    unfolding redo_transactions
    redo_transactions-Holds [] d p r height images outputs singles held h =
        subst (λ (x : DeltaState × List (List ℕ)). Holds x.0 height images outputs (singles ++ []))
          (passes_eq h) (subst (Holds d height images outputs) (sym (append-nil singles)) held)
    redo_transactions-Holds (tx ∷ txs) d p r height images outputs singles held h =
        let first =
          redo_transaction_get_error currency check_ring_signature prefix_hash tx d p false in
        let (q, one, more) = and_redo-passes first _ h in
        let (rest, others, same) =
          and_redo-passes (redo_transactions currency check_ring_signature prefix_hash txs q.0 p) _
            more in
        let ks = images_in tx.inputs in
        let made = outputs_in tx.unlock_time tx.outputs in
        let mine = redo_transaction-Holds tx d p false q height images outputs singles held one in
        let all =
          redo_transactions-Holds txs q.0 p rest height (add_images height images ks)
            (add_outputs outputs made) (singles ++ singles_in tx.inputs) mine others in
        subst
          (λ (x : DeltaState × List (List ℕ)).
            Holds x.0 height (add_images height images (ks ++ images_of txs))
              (add_outputs outputs (made ++ outputs_made txs))
              (singles ++ (singles_in tx.inputs ++ singles_of txs)))
          (passes_eq same)
          (rw
            (
              add_images-append height images ks (images_of txs),
              add_outputs-append outputs made (outputs_made txs),
              ← append_assoc singles (singles_in tx.inputs) (singles_of txs),
            )
            all)
