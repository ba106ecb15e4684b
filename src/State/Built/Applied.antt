-- ===== src/State/Built/Applied.antt =====
-- `DeltaState::apply` to the state: what the delta holds is added to it.
use mathlib.Core.List.{append-nil}
use mathlib.Core.Path.{subst, fun_ext}
use native.Mathlib.Decide.{ℕ_discrete}
use naza.Common.{ℕ}
use naza.Common.{◌≡◌, refl, sym, ap, ◌∙◌, arith}
use naza.Common.{false}
use naza.Common.{Option, none, some, List, [], ◌∷◌, ◌++◌}
use naza.Common.{length, length-append}
use naza.Common.Options.{◌>>=◌, >>=-eq-some, some_eq}
use naza.State.{
  UnlockTimePublickKeyHeightSpent, BlockChainState, IBlockChainState, put, is_some, reader,
}
use naza.State.Store.{IsFilled, put_eq, put_ne, is_some-false}
use naza.State.Apply.{apply, apply_keyimages, apply_amounts, apply_outputs, apply_spent}
use naza.State
use naza.State.Keys.{IsMap}
use naza.State.Delta.{DeltaState, find, outputs_of}
use naza.State.Redo.Spent.{store_keyimage-free}
use naza.State.Redo.Given.{put-or_else, put-add_output, put-outputs_of}
use naza.State.Built.{
  Images, Outputs, Marks, or_else, built, built-nothing, add_output, add_mark, Room,
}
use naza.State.Built.Step.{store_keyimage-built, push_amount_output-built, spend_output-built}
use naza.State.Built.Content.{add_marks, Spends}

or_else-none : (a b : Option ℕ) → or_else a b ≡ none → a ≡ none
or_else-none none b h = refl
or_else-none (some x) b h = cc

apply_keyimages-built :
    (kis : List (ℕ × ℕ)) (s t : BlockChainState) (height : ℕ) (images : Images) (outputs : Outputs)
    (marks : Marks)
    → apply_keyimages kis (built s height images outputs marks) ≡ some t
    → t ≡ built s height (λ k. or_else (images k) (find kis k)) outputs marks
unfolding apply_keyimages
apply_keyimages-built [] s t height images outputs marks h =
    sym (some_eq h)
    ∙ ap (λ (f : Images). built s height f outputs marks) (fun_ext (λ k. same (images k)))
  where
    same : (m : Option ℕ) → m ≡ or_else m none
    same none = refl
    same (some x) = refl
apply_keyimages-built ((key_image, x) ∷ rest) s t height images outputs marks h =
    let before = built s height images outputs marks in
    let (u, stored, more) = >>=-eq-some (State.store_keyimage before key_image x) _ h in
    let free =
      is_some-false (before.keyimages key_image)
        (store_keyimage-free before key_image x u stored) in
    let e =
      some_eq (sym stored ∙ store_keyimage-built s height images outputs marks key_image x free) in
    apply_keyimages-built rest s t height (put images key_image (some x)) outputs marks
      (ap (apply_keyimages rest) (sym e) ∙ more)
    ∙ ap (λ (f : Images). built s height f outputs marks)
        (fun_ext (λ k.
          put-or_else images key_image x rest k
            (or_else-none (images key_image) (s.keyimages key_image) free)))

Room-prefix :
    (s : BlockChainState) (outputs more : Outputs)
    → Room s (λ a. outputs a ++ more a)
    → Room s outputs
Room-prefix s outputs more room a = omega (arith, room a, length-append (outputs a) (more a))

Room-put :
    (s : BlockChainState) (outputs : Outputs) (amount : ℕ) (xs : List (ℕ × ℕ))
    → Room s (put outputs amount (outputs amount ++ xs))
    → Room s outputs
Room-put s outputs amount xs room a = elim (ℕ_discrete a amount) [
  | yes e ↦ omega (
    arith,
    room a,
    ap length (put_eq outputs amount (outputs amount ++ xs) a e),
    length-append (outputs amount) xs,
    ap (λ (b : ℕ). length (outputs b)) e,
  )
  | no ne ↦ omega (arith, room a, ap length (put_ne outputs amount (outputs amount ++ xs) a ne))
]

apply_outputs-built :
    (height amount : ℕ) (xs : List (ℕ × ℕ)) (s : BlockChainState) (images : Images)
    (outputs : Outputs) (marks : Marks)
    → IsFilled s
    → Room s (put outputs amount (outputs amount ++ xs))
    → apply_outputs height amount xs (built s height images outputs marks)
      ≡ some (built s height images (put outputs amount (outputs amount ++ xs)) marks)
unfolding apply_outputs
apply_outputs-built height amount [] s images outputs marks f room =
    ap (λ (g : Outputs). some (built s height images g marks))
      (fun_ext (λ a. elim (ℕ_discrete a amount) [
        | yes e ↦
            ap outputs e
            ∙ sym (append-nil (outputs amount))
            ∙ sym (put_eq outputs amount (outputs amount ++ []) a e)
        | no ne ↦ sym (put_ne outputs amount (outputs amount ++ []) a ne)
      ]))
apply_outputs-built height amount ((unlock_time, pk) ∷ rest) s images outputs marks f room =
    let more = add_output outputs amount (unlock_time, pk) in
    let same = fun_ext (put-add_output outputs amount (unlock_time, pk) rest) in
    let room' = subst (Room s) (sym same) room in
    ap
      (λ (m : Option (BlockChainState × ℕ)).
        m >>= λ pushed. apply_outputs height amount rest pushed.0)
      (push_amount_output-built s height images outputs marks amount unlock_time pk f
        (Room-put s more amount rest room'))
    ∙ apply_outputs-built height amount rest s images more marks f room'
    ∙ ap (λ (g : Outputs). some (built s height images g marks)) same

apply_amounts-built :
    (height : ℕ) (entries : List (ℕ × List (ℕ × ℕ))) (s : BlockChainState) (images : Images)
    (outputs : Outputs) (marks : Marks)
    → IsFilled s
    → IsMap entries
    → Room s (λ a. outputs a ++ outputs_of entries a)
    → apply_amounts height entries (built s height images outputs marks)
      ≡ some (built s height images (λ a. outputs a ++ outputs_of entries a) marks)
unfolding apply_amounts
apply_amounts-built height [] s images outputs marks f ordered room =
    ap (λ (g : Outputs). some (built s height images g marks))
      (fun_ext (λ a. sym (append-nil (outputs a))))
apply_amounts-built height ((amount, xs) ∷ rest) s images outputs marks f ordered room =
    let more = put outputs amount (outputs amount ++ xs) in
    let same : (λ a. more a ++ outputs_of rest a)
        ≡ (λ a. outputs a ++ outputs_of ((amount, xs) ∷ rest) a) =
      fun_ext (λ a. put-outputs_of outputs amount xs rest a ordered) in
    let room' = subst (Room s) (sym same) room in
    ap (λ (m : Option BlockChainState). m >>= λ t. apply_amounts height rest t)
      (apply_outputs-built height amount xs s images outputs marks f
        (Room-prefix s more (outputs_of rest) room'))
    ∙ apply_amounts-built height rest s images more marks f ordered.1 room'
    ∙ ap (λ (g : Outputs). some (built s height images g marks)) same

apply_spent-built :
    (singles : List (ℕ × ℕ)) (s : BlockChainState) (height : ℕ) (images : Images)
    (outputs : Outputs) (marks : Marks)
    → Spends s marks singles
    → apply_spent singles (built s height images outputs marks)
      ≡ built s height images outputs (add_marks marks singles)
unfolding apply_spent
apply_spent-built [] s height images outputs marks h = refl
apply_spent-built ((amount, i) ∷ rest) s height images outputs marks h =
    ap (apply_spent rest) (spend_output-built s height images outputs marks amount i h.0 h.1).0
    ∙ apply_spent-built rest s height images outputs (add_mark marks amount i) h.2

pub apply-built :
    (d : DeltaState) (s t : BlockChainState)
    → IsFilled s
    → IsMap d.global_amounts
    → Room s (outputs_of d.global_amounts)
    → Spends s (λ a i. false) d.spent_outputs
    → apply d s ≡ some t
    → t
      ≡ built s d.block_height
          (find d.keyimages)
          (outputs_of d.global_amounts)
          (add_marks (λ a i. false) d.spent_outputs)
unfolding apply
apply-built d s t f ordered room spends h =
    let height = d.block_height in
    let images = find d.keyimages in
    let made = outputs_of d.global_amounts in
    let (u, stored, more) = >>=-eq-some (apply_keyimages d.keyimages s) _ h in
    let (v, pushed, same) = >>=-eq-some (apply_amounts height d.global_amounts u) _ more in
    let imaged : u ≡ built s height images (λ a. []) (λ a i. false) =
      apply_keyimages-built d.keyimages s u height (λ k. none) (λ a. []) (λ a i. false)
        (ap (apply_keyimages d.keyimages) (built-nothing s height f) ∙ stored) in
    let all =
      apply_amounts-built height d.global_amounts s images (λ a. []) (λ a i. false) f ordered
        room in
    let filled : v ≡ built s height images made (λ a i. false) =
      some_eq (sym pushed ∙ ap (apply_amounts height d.global_amounts) imaged ∙ all) in
    sym (some_eq same)
    ∙ ap (apply_spent d.spent_outputs) filled
    ∙ apply_spent-built d.spent_outputs s height images made (λ a i. false) spends
