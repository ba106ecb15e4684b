-- ===== src/State/Redo/Holds.antt =====
-- What a delta holds of a block: `find` of its key images, its outputs by amount, its spent outputs.
use mathlib.Core.List.{append-nil}
use mathlib.Core.Path.{subst, fun_ext}
use native.Mathlib.Decide.{ℕ_discrete}
use naza.Common.{ℕ}
use naza.Common.{◌≡◌, refl, sym, ap, ◌∙◌, ◌≢◌, inl, inr, arith}
use naza.Common.{Bool, if◌then◌else◌, true, false, ltb, ◌==◌, Bool-cases}
use naza.Common.{Option, none, some, List, [], ◌∷◌, ◌++◌}
use naza.Transaction.{TransactionOutput}
use naza.Semantic.{get_key}
use naza.State.{IBlockChainState, put, is_some}
use naza.State.Store.{put_eq, put_ne, is_some-false}
use naza.State.Keys.{IsMap, push_at-IsMap, outputs_of-push_at}
use naza.State.Delta.{
  DeltaState, find, insert, push_at, outputs_of, store_keyimage, push_amount_output, spend_output,
}
use naza.State.Redo.{spend_single, redo_outputs}
use naza.State.Built.{Images, Outputs, add_output}
use naza.State.Built.Content.{add_outputs, outputs_in, single}

-- No key stands twice in the list.
abbrev pub HasUnique : List (ℕ × ℕ) → Type 0
HasUnique [] = Unit
HasUnique ((k, x) ∷ entries) = (find entries k ≡ none) × HasUnique entries

pub record Holds (d : DeltaState) (height : ℕ) (images : Images) (outputs : Outputs)
    (singles : List (ℕ × ℕ)) : Type 0 where
  pub found : (k : ℕ) → find d.keyimages k ≡ images k
  pub pushed : (a : ℕ) → outputs_of d.global_amounts a ≡ outputs a
  pub spent : d.spent_outputs ≡ singles
  pub ordered : IsMap d.global_amounts
  pub unique : HasUnique d.keyimages
  pub block_height : d.block_height ≡ height

find-insert :
    (entries : List (ℕ × ℕ)) (key_image height k : ℕ)
    → find entries key_image ≡ none
    → find (insert entries key_image height) k ≡ put (find entries) key_image (some height) k
find-insert [] key_image height k free = refl
find-insert ((j, w) ∷ entries) key_image height k free = elim (Bool-cases (ltb key_image j)) [
  | inl before ↦ rw before refl
  | inr behind ↦ rw behind (ground (arith, free, find-insert entries key_image height k))
]

insert-HasUnique :
    (entries : List (ℕ × ℕ)) (key_image height : ℕ)
    → HasUnique entries
    → find entries key_image ≡ none
    → HasUnique (insert entries key_image height)
insert-HasUnique [] key_image height u free = (refl, tt)
insert-HasUnique ((j, w) ∷ entries) key_image height u free = elim (Bool-cases (ltb key_image j)) [
  | inl before ↦ rw before (free, u)
  | inr behind ↦
      let apart : (key_image == j) ≡ false = differ (find entries key_image) free in
      let free' : find entries key_image ≡ none =
        sym (ap (λ (b : Bool). if b then some w else find entries key_image) apart) ∙ free in
      rw behind (
        find-insert entries key_image height j free' ∙ rw (other apart) u.0,
        insert-HasUnique entries key_image height u.1 free',
      )
]
  where
    differ :
        (m : Option ℕ) → (if key_image == j then some w else m) ≡ none → (key_image == j) ≡ false
    differ m h = grind (arith, h)

    other : (key_image == j) ≡ false → (j == key_image) ≡ false
    other h = ground (arith, h)

outputs_of-push_other :
    (entries : List (ℕ × List (ℕ × ℕ))) (amount a : ℕ) (output : ℕ × ℕ)
    → a ≢ amount
    → outputs_of (push_at entries amount output) a ≡ outputs_of entries a
outputs_of-push_other [] amount a output ne = ground (arith, ne)
outputs_of-push_other ((b, outputs) ∷ entries) amount a output ne =
    elim (Bool-cases (amount == b)) [
      | inl e ↦ rw e (ground (arith, ne))
      | inr other ↦ rw other (elim (Bool-cases (ltb amount b)) [
        | inl lt ↦ rw lt (ground (arith, ne))
        | inr ge ↦ rw ge (ground (arith, outputs_of-push_other entries amount a output ne))
      ])
    ]

pub store_keyimage-Holds :
    (d : DeltaState) (key_image x height : ℕ) (images : Images) (outputs : Outputs)
    (singles : List (ℕ × ℕ)) (e : DeltaState)
    → Holds d height images outputs singles
    → store_keyimage d key_image x ≡ some e
    → Holds e height (put images key_image (some x)) outputs singles
unfolding store_keyimage
store_keyimage-Holds d key_image x height images outputs singles e held h =
    elim (Bool-cases (is_some (find d.keyimages key_image))) [
      | inl there ↦ absurd (clash there)
      | inr free ↦
          subst (λ (f : DeltaState). Holds f height (put images key_image (some x)) outputs singles)
            (same free)
            (record {
              found = λ k.
                  find-insert d.keyimages key_image x k (is_some-false _ free)
                  ∙ ap (λ (f : Images). put f key_image (some x) k) (fun_ext held.found);
              pushed = held.pushed;
              spent = held.spent;
              ordered = held.ordered;
              unique = insert-HasUnique d.keyimages key_image x held.unique (is_some-false _ free);
              block_height = held.block_height;
            })
    ]
  where
    clash : is_some (find d.keyimages key_image) ≡ true → ⊥
    clash there = grind (arith, there, h)

    same :
        is_some (find d.keyimages key_image) ≡ false
        → record d { keyimages = insert d.keyimages key_image x } ≡ e
    same free = grind (arith, free, h)

pub spend_output-Holds :
    (d : DeltaState) (amount i height : ℕ) (images : Images) (outputs : Outputs)
    (singles : List (ℕ × ℕ))
    → Holds d height images outputs singles
    → Holds (spend_output d amount i) height images outputs (singles ++ (amount, i) ∷ [])
unfolding spend_output
spend_output-Holds d amount i height images outputs singles held = record {
  found = held.found;
  pushed = held.pushed;
  spent = ap (λ (l : List (ℕ × ℕ)). l ++ (amount, i) ∷ []) held.spent;
  ordered = held.ordered;
  unique = held.unique;
  block_height = held.block_height;
}

pub spend_single-Holds :
    (d : DeltaState) (amount : ℕ) (xs : List ℕ) (height : ℕ) (images : Images) (outputs : Outputs)
    (singles : List (ℕ × ℕ))
    → Holds d height images outputs singles
    → Holds (spend_single d amount xs) height images outputs (singles ++ single amount xs)
spend_single-Holds d amount [] height images outputs singles held =
    subst (Holds d height images outputs) (sym (append-nil singles)) held
spend_single-Holds d amount (x ∷ []) height images outputs singles held =
    spend_output-Holds d amount x height images outputs singles held
spend_single-Holds d amount (x ∷ y ∷ rest) height images outputs singles held =
    subst (Holds d height images outputs) (sym (append-nil singles)) held

pub push_amount_output-Holds :
    (d : DeltaState) (p : IBlockChainState) (amount unlock_time pk height : ℕ) (images : Images)
    (outputs : Outputs) (singles : List (ℕ × ℕ))
    → Holds d height images outputs singles
    → Holds
        (push_amount_output d p amount unlock_time pk).0
        height
        images
        (add_output outputs amount (unlock_time, pk))
        singles
unfolding push_amount_output
push_amount_output-Holds d p amount unlock_time pk height images outputs singles held = record {
  found = held.found;
  pushed = λ a. elim (ℕ_discrete a amount) [
    | yes e ↦
        ap (outputs_of (push_at d.global_amounts amount (unlock_time, pk))) e
        ∙ outputs_of-push_at d.global_amounts amount (unlock_time, pk) held.ordered
        ∙ ap (λ (xs : List (ℕ × ℕ)). xs ++ (unlock_time, pk) ∷ []) (held.pushed amount)
        ∙ sym (put_eq outputs amount (outputs amount ++ (unlock_time, pk) ∷ []) a e)
    | no ne ↦
        outputs_of-push_other d.global_amounts amount a (unlock_time, pk) ne
        ∙ held.pushed a
        ∙ sym (put_ne outputs amount (outputs amount ++ (unlock_time, pk) ∷ []) a ne)
  ];
  spent = held.spent;
  ordered = push_at-IsMap d.global_amounts amount (unlock_time, pk) held.ordered;
  unique = held.unique;
  block_height = held.block_height;
}

pub redo_outputs-Holds :
    (unlock_time : ℕ) (txs : List TransactionOutput) (d : DeltaState) (p : IBlockChainState)
    (height : ℕ) (images : Images) (outputs : Outputs) (singles : List (ℕ × ℕ))
    → Holds d height images outputs singles
    → Holds
        (redo_outputs unlock_time txs d p).0
        height
        images
        (add_outputs outputs (outputs_in unlock_time txs))
        singles
unfolding redo_outputs
redo_outputs-Holds unlock_time [] d p height images outputs singles held = held
redo_outputs-Holds unlock_time (output ∷ rest) d p height images outputs singles held =
    let key = get_key output.target in
    redo_outputs-Holds unlock_time rest (push_amount_output d p output.amount unlock_time key).0 p
      height images (add_output outputs output.amount (unlock_time, key)) singles
      (push_amount_output-Holds d p output.amount unlock_time key height images outputs singles
        held)
