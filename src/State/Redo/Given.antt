-- ===== src/State/Redo/Given.antt =====
-- `DeltaState::apply` to another delta: what the two hold together.
use mathlib.Core.List.{append-nil, append_assoc}
use mathlib.Core.Path.{subst}
use native.Mathlib.Decide.{ℕ_discrete}
use naza.Common.{ℕ}
use naza.Common.{◌≡◌, refl, sym, ap, ◌∙◌}
use naza.Common.{true, false}
use naza.Common.{Option, none, some, List, [], ◌∷◌, ◌++◌}
use naza.Common.Options.{some_eq}
use naza.State.{IBlockChainState, put, is_some}
use naza.State.Store.{put_eq, put_ne, is_some-false}
use naza.State.Keys.{IsMap, outputs_of-none}
use naza.State.Delta.{
  DeltaState, find, outputs_of, store_keyimage, push_amount_output, spend_output,
}
use naza.State.Redo.{give_keyimages, give_outputs, give_amounts, give_spent, apply_to_delta}
use naza.State.Built.{Images, Outputs, or_else, add_output}
use naza.State.Redo.Holds.{
  Holds, store_keyimage-Holds, spend_output-Holds, push_amount_output-Holds,
}
use naza.State.Redo.DoubleSpend.{give_keyimages-has}
use naza.State.Redo.Images.{store_keyimage-Added}

pub Holds-cong :
    (d : DeltaState) (height : ℕ) (images images' : Images) (outputs outputs' : Outputs)
    (singles : List (ℕ × ℕ))
    → ((k : ℕ) → images k ≡ images' k)
    → ((a : ℕ) → outputs a ≡ outputs' a)
    → Holds d height images outputs singles
    → Holds d height images' outputs' singles
Holds-cong d height images images' outputs outputs' singles ei eo held = record {
  found = λ k. held.found k ∙ ei k;
  pushed = λ a. held.pushed a ∙ eo a;
  spent = held.spent;
  ordered = held.ordered;
  unique = held.unique;
  block_height = held.block_height;
}

pub put-or_else :
    (f : Images) (key_image x : ℕ) (rest : List (ℕ × ℕ)) (k : ℕ)
    → f key_image ≡ none
    → or_else (put f key_image (some x) k) (find rest k)
      ≡ or_else (f k) (find ((key_image, x) ∷ rest) k)
put-or_else f key_image x rest k free = elim (ℕ_discrete k key_image) [
  | yes p ↦
      rw (put_eq f key_image (some x) k p, put_eq (find rest) key_image (some x) k p, p, free) refl
  | no p ↦ rw (put_ne f key_image (some x) k p, put_ne (find rest) key_image (some x) k p) refl
]

give_keyimages-Holds :
    (kis : List (ℕ × ℕ)) (d e : DeltaState) (height : ℕ) (images : Images) (outputs : Outputs)
    (singles : List (ℕ × ℕ))
    → Holds d height images outputs singles
    → give_keyimages kis d ≡ some e
    → Holds e height (λ k. or_else (images k) (find kis k)) outputs singles
unfolding give_keyimages
give_keyimages-Holds [] d e height images outputs singles held h =
    subst (λ (f : DeltaState). Holds f height (λ k. or_else (images k) none) outputs singles)
      (some_eq h)
      (Holds-cong d height images (λ k. or_else (images k) none) outputs outputs singles
        (λ k. same (images k)) (λ a. refl) held)
  where
    same : (m : Option ℕ) → m ≡ or_else m none
    same none = refl
    same (some x) = refl
give_keyimages-Holds ((key_image, x) ∷ rest) d e height images outputs singles held h =
    let (f, stored, more) = given (store_keyimage d key_image x) h in
    let free : images key_image ≡ none =
      sym (held.found key_image)
      ∙ is_some-false (find d.keyimages key_image)
          (store_keyimage-Added d key_image x f stored).0 in
    Holds-cong e height (λ k. or_else (put images key_image (some x) k) (find rest k))
      (λ k. or_else (images k) (find ((key_image, x) ∷ rest) k)) outputs outputs singles
      (λ k. put-or_else images key_image x rest k free) (λ a. refl)
      (give_keyimages-Holds rest f e height (put images key_image (some x)) outputs singles
        (store_keyimage-Holds d key_image x height images outputs singles f held stored) more)
  where
    given :
        (m : Option DeltaState)
        → elim m as (λ x. Option DeltaState) [ none ↦ none | some f ↦ give_keyimages rest f ]
          ≡ some e
        → (f : DeltaState) × (m ≡ some f) × (give_keyimages rest f ≡ some e)
    given none x = cc
    given (some f) x = (f, refl, x)

pub put-add_output :
    (outputs : Outputs) (amount : ℕ) (output : ℕ × ℕ) (rest : List (ℕ × ℕ)) (a : ℕ)
    → put
        (add_output outputs amount output)
        amount
        (add_output outputs amount output amount ++ rest)
        a
      ≡ put outputs amount (outputs amount ++ output ∷ rest) a
put-add_output outputs amount output rest a =
    let more = add_output outputs amount output in
    let own = outputs amount ++ output ∷ [] in
    let all = outputs amount ++ output ∷ rest in
    elim (ℕ_discrete a amount) [
      | yes e ↦
          put_eq more amount (more amount ++ rest) a e
          ∙ ap (λ (ys : List (ℕ × ℕ)). ys ++ rest) (put_eq outputs amount own amount refl)
          ∙ append_assoc (outputs amount) (output ∷ []) rest
          ∙ sym (put_eq outputs amount all a e)
      | no ne ↦
          put_ne more amount (more amount ++ rest) a ne
          ∙ put_ne outputs amount own a ne
          ∙ sym (put_ne outputs amount all a ne)
    ]

give_outputs-Holds :
    (amount : ℕ) (xs : List (ℕ × ℕ)) (d : DeltaState) (p : IBlockChainState) (height : ℕ)
    (images : Images) (outputs : Outputs) (singles : List (ℕ × ℕ))
    → Holds d height images outputs singles
    → Holds
        (give_outputs amount xs d p)
        height
        images
        (put outputs amount (outputs amount ++ xs))
        singles
unfolding give_outputs
give_outputs-Holds amount [] d p height images outputs singles held =
    Holds-cong d height images images outputs (put outputs amount (outputs amount ++ [])) singles
      (λ k. refl)
      (λ a. elim (ℕ_discrete a amount) [
        | yes e ↦
            ap outputs e
            ∙ sym (append-nil (outputs amount))
            ∙ sym (put_eq outputs amount (outputs amount ++ []) a e)
        | no ne ↦ sym (put_ne outputs amount (outputs amount ++ []) a ne)
      ])
      held
give_outputs-Holds amount ((unlock_time, pk) ∷ rest) d p height images outputs singles held =
    let more = add_output outputs amount (unlock_time, pk) in
    Holds-cong _ height images images (put more amount (more amount ++ rest))
      (put outputs amount (outputs amount ++ (unlock_time, pk) ∷ rest)) singles (λ k. refl)
      (put-add_output outputs amount (unlock_time, pk) rest)
      (give_outputs-Holds amount rest (push_amount_output d p amount unlock_time pk).0 p height
        images more singles
        (push_amount_output-Holds d p amount unlock_time pk height images outputs singles held))

pub put-outputs_of :
    (f : Outputs) (amount : ℕ) (xs : List (ℕ × ℕ)) (entries : List (ℕ × List (ℕ × ℕ))) (a : ℕ)
    → IsMap ((amount, xs) ∷ entries)
    → put f amount (f amount ++ xs) a ++ outputs_of entries a
      ≡ f a ++ outputs_of ((amount, xs) ∷ entries) a
put-outputs_of f amount xs entries a ordered = elim (ℕ_discrete a amount) [
  | yes e ↦
      rw
        (
          put_eq f amount (f amount ++ xs) a e,
          put_eq (outputs_of entries) amount xs a e,
          e,
          outputs_of-none amount entries ordered.0,
        )
        (append-nil (f amount ++ xs))
  | no ne ↦
      rw (put_ne f amount (f amount ++ xs) a ne, put_ne (outputs_of entries) amount xs a ne) refl
]

give_amounts-Holds :
    (entries : List (ℕ × List (ℕ × ℕ))) (d : DeltaState) (p : IBlockChainState) (height : ℕ)
    (images : Images) (outputs : Outputs) (singles : List (ℕ × ℕ))
    → IsMap entries
    → Holds d height images outputs singles
    → Holds
        (give_amounts entries d p)
        height
        images
        (λ a. outputs a ++ outputs_of entries a)
        singles
unfolding give_amounts
give_amounts-Holds [] d p height images outputs singles ordered held =
    Holds-cong d height images images outputs (λ a. outputs a ++ []) singles (λ k. refl)
      (λ a. sym (append-nil (outputs a))) held
give_amounts-Holds ((amount, xs) ∷ rest) d p height images outputs singles ordered held =
    let more = put outputs amount (outputs amount ++ xs) in
    Holds-cong _ height images images (λ a. more a ++ outputs_of rest a)
      (λ a. outputs a ++ outputs_of ((amount, xs) ∷ rest) a) singles (λ k. refl)
      (λ a. put-outputs_of outputs amount xs rest a ordered)
      (give_amounts-Holds rest (give_outputs amount xs d p) p height images more singles ordered.1
        (give_outputs-Holds amount xs d p height images outputs singles held))

give_spent-Holds :
    (entries : List (ℕ × ℕ)) (d : DeltaState) (height : ℕ) (images : Images) (outputs : Outputs)
    (singles : List (ℕ × ℕ))
    → Holds d height images outputs singles
    → Holds (give_spent entries d) height images outputs (singles ++ entries)
unfolding give_spent
give_spent-Holds [] d height images outputs singles held =
    subst (Holds d height images outputs) (sym (append-nil singles)) held
give_spent-Holds ((amount, i) ∷ rest) d height images outputs singles held =
    subst (Holds (give_spent rest (spend_output d amount i)) height images outputs)
      (append_assoc singles ((amount, i) ∷ []) rest)
      (give_spent-Holds rest (spend_output d amount i) height images outputs
        (singles ++ (amount, i) ∷ [])
        (spend_output-Holds d amount i height images outputs singles held))

or_else_comm : (a b : Option ℕ) → (is_some b ≡ true → is_some a ≡ false) → or_else a b ≡ or_else b a
or_else_comm none none h = refl
or_else_comm none (some y) h = refl
or_else_comm (some x) none h = refl
or_else_comm (some x) (some y) h = cc (h refl)

given_first :
    (spent : List (ℕ × ℕ)) (amounts : List (ℕ × List (ℕ × ℕ))) (p : IBlockChainState)
    (m : Option DeltaState) (e : DeltaState)
    → elim m as (λ x. Option DeltaState) [
      | none ↦ none
      | some f ↦ some (give_spent spent (give_amounts amounts f p))
    ]
      ≡ some e
    → (f : DeltaState) × (m ≡ some f) × (give_spent spent (give_amounts amounts f p) ≡ e)
given_first spent amounts p none e x = cc
given_first spent amounts p (some f) e x = (f, refl, some_eq x)

pub apply_to_delta-Holds :
    (t d e : DeltaState) (p : IBlockChainState) (height : ℕ) (images more : Images)
    (outputs pushed : Outputs) (singles spent : List (ℕ × ℕ))
    → Holds d height images outputs singles
    → Holds t height more pushed spent
    → apply_to_delta t d p ≡ some e
    → Holds e height
        (λ k. or_else (more k) (images k))
        (λ a. outputs a ++ pushed a)
        (singles ++ spent)
unfolding apply_to_delta
apply_to_delta-Holds t d e p height images more outputs pushed singles spent held new h =
    let (f, given, same) =
      given_first t.spent_outputs t.global_amounts p (give_keyimages t.keyimages d) e h in
    let stored = give_keyimages-Holds t.keyimages d f height images outputs singles held given in
    let mixed : Images = λ k. or_else (images k) (find t.keyimages k) in
    let (united, apart) = give_keyimages-has t.keyimages d f given in
    let full =
      give_spent-Holds t.spent_outputs (give_amounts t.global_amounts f p) height mixed
        (λ a. outputs a ++ outputs_of t.global_amounts a) singles
        (give_amounts-Holds t.global_amounts f p height mixed outputs singles new.ordered stored) in
    Holds-cong e height mixed (λ k. or_else (more k) (images k))
      (λ a. outputs a ++ outputs_of t.global_amounts a) (λ a. outputs a ++ pushed a)
      (singles ++ spent)
      (λ k.
        or_else_comm (images k) (find t.keyimages k)
          (λ b. ap is_some (sym (held.found k)) ∙ apart k b)
        ∙ ap (λ (o : Option ℕ). or_else o (images k)) (new.found k))
      (λ a. ap (λ (ys : List (ℕ × ℕ)). outputs a ++ ys) (new.pushed a))
      (subst
        (λ (g : DeltaState).
          Holds g height mixed (λ a. outputs a ++ outputs_of t.global_amounts a) (singles ++ spent))
        same
        (subst
          (Holds (give_spent t.spent_outputs (give_amounts t.global_amounts f p)) height mixed
            (λ a. outputs a ++ outputs_of t.global_amounts a))
          (ap (λ (l : List (ℕ × ℕ)). singles ++ l) new.spent) full))
