-- ===== src/State/Refines.antt =====
-- What a delta shows to its readers is what the chain's state holds after `DeltaState::apply`.
use naza.Common.Options.{some_eq}
use naza.Common.{ℕ, ◌+◌, ◌%◌, ◌^◌, ◌<◌}
use naza.Common.{◌≡◌, refl, sym, ap, ◌∙◌, arith}
use naza.Common.{Bool, true, false, not, ◌||◌, ◌==◌, if◌then◌else◌}
use naza.Common.{Option, none, some, List, [], ◌∷◌}
use naza.Common.{length}
use naza.Common.Options.{◌>>◌, guard, >>=-eq-some}
use naza.State.{BlockChainState, put, is_some, reader}
use naza.State.{store_keyimage, push_amount_output, spend_output}
use naza.State.Delta.{DeltaState, find, outputs_of, read_keyimage, next_global_index_for_amount}
use naza.State.Keys.{IsMap, outputs_of-none}
use naza.State.Apply.{apply_keyimages, apply_outputs, apply_amounts, apply_spent, apply}

guard-some {ℓ} : {A : Type ℓ} (b : Bool) (x : A) {y : A} → (guard b >> some x) ≡ some y → x ≡ y
guard-some true x h = cc
guard-some false x h = cc

store_keyimage-stored :
    (s : BlockChainState) (key_image height : ℕ) {t : BlockChainState}
    → store_keyimage s key_image height ≡ some t
    → ((k : ℕ) → is_some (t.keyimages k) ≡ (k == key_image || is_some (s.keyimages k)))
      × ((a : ℕ) → t.next_gi_for_amount a ≡ s.next_gi_for_amount a)
unfolding store_keyimage
store_keyimage-stored s key_image height {t = t} h =
    let e : record s { keyimages = put s.keyimages key_image (some height) } ≡ t =
      guard-some (not (is_some (s.keyimages key_image))) _ h in
    (
      λ k. ap (λ (u : BlockChainState). is_some (u.keyimages k)) (sym e) ∙ ground arith,
      λ a. ap (λ (u : BlockChainState). u.next_gi_for_amount a) (sym e),
    )

pub push_amount_output-next :
    (s : BlockChainState) (amount unlock_time height pk : ℕ) {r : BlockChainState × ℕ}
    → push_amount_output s amount unlock_time height pk ≡ some r
    → ((k : ℕ) → r.0.keyimages k ≡ s.keyimages k)
      × ((a : ℕ)
          → r.0.next_gi_for_amount a ≡ (
              if a == amount
              then (s.next_gi_for_amount amount + 1) % 2 ^ 32
              else s.next_gi_for_amount a))
unfolding push_amount_output
push_amount_output-next s amount unlock_time height pk {r = r} h =
    let e =
      guard-some (not (is_some (s.amount_outputs amount (s.next_gi_for_amount amount)))) _ h in
    (
      λ k. ap (λ (u : BlockChainState × ℕ). u.0.keyimages k) (sym e),
      λ a. ap (λ (u : BlockChainState × ℕ). u.0.next_gi_for_amount a) (sym e),
    )

-- The next indices are 32-bit numbers.
abbrev pub HasWords : BlockChainState → Type 0
HasWords s = (a : ℕ) → s.next_gi_for_amount a < 2 ^ 32

pub apply_keyimages-stored :
    (kis : List (ℕ × ℕ)) (s : BlockChainState) {t : BlockChainState}
    → apply_keyimages kis s ≡ some t
    → ((k : ℕ) → is_some (t.keyimages k) ≡ (is_some (find kis k) || is_some (s.keyimages k)))
      × ((a : ℕ) → t.next_gi_for_amount a ≡ s.next_gi_for_amount a)
unfolding apply_keyimages
apply_keyimages-stored [] s h = (
  λ k. ap (λ (u : BlockChainState). is_some (u.keyimages k)) (sym (some_eq h)),
  λ a. ap (λ (u : BlockChainState). u.next_gi_for_amount a) (sym (some_eq h)),
)
apply_keyimages-stored ((image, height) ∷ rest) s h =
    let (u, stored, more) = >>=-eq-some (store_keyimage s image height) _ h in
    let (images, next) = store_keyimage-stored s image height stored in
    let (images', next') = apply_keyimages-stored rest u more in
    (λ k. ground (arith, images k, images' k), λ a. next' a ∙ next a)

apply_outputs-next :
    (height amount : ℕ) (outputs : List (ℕ × ℕ)) (s : BlockChainState) {t : BlockChainState}
    → HasWords s
    → apply_outputs height amount outputs s ≡ some t
    → ((k : ℕ) → t.keyimages k ≡ s.keyimages k)
      × ((a : ℕ)
          → t.next_gi_for_amount a ≡ (
              if a == amount
              then (length outputs + s.next_gi_for_amount amount) % 2 ^ 32
              else s.next_gi_for_amount a))
unfolding apply_outputs
apply_outputs-next height amount [] s words h = (
  λ k. ap (λ (u : BlockChainState). u.keyimages k) (sym (some_eq h)),
  λ a.
      ap (λ (u : BlockChainState). u.next_gi_for_amount a) (sym (some_eq h))
      ∙ ground (arith, words a),
)
apply_outputs-next height amount ((unlock_time, pk) ∷ rest) s words h =
    let (r, pushed, more) = >>=-eq-some (push_amount_output s amount unlock_time height pk) _ h in
    let (images, next) = push_amount_output-next s amount unlock_time height pk pushed in
    let (images', next') =
      apply_outputs-next height amount rest r.0 (λ a. ground (arith, words a, next a)) more in
    (λ k. images' k ∙ images k, λ a. ground (arith, next a, next amount, next' a))

apply_amounts-next :
    (height : ℕ) (entries : List (ℕ × List (ℕ × ℕ))) (s : BlockChainState) {t : BlockChainState}
    → HasWords s
    → IsMap entries
    → apply_amounts height entries s ≡ some t
    → ((k : ℕ) → t.keyimages k ≡ s.keyimages k)
      × ((a : ℕ)
          → t.next_gi_for_amount a
            ≡ (length (outputs_of entries a) + s.next_gi_for_amount a) % 2 ^ 32)
unfolding apply_amounts
apply_amounts-next height [] s words ordered h = (
  λ k. ap (λ (u : BlockChainState). u.keyimages k) (sym (some_eq h)),
  λ a.
      ap (λ (u : BlockChainState). u.next_gi_for_amount a) (sym (some_eq h))
      ∙ omega (arith, words a),
)
apply_amounts-next height ((amount, outputs) ∷ rest) s words ordered h =
    let (u, pushed, more) = >>=-eq-some (apply_outputs height amount outputs s) _ h in
    let (images, next) = apply_outputs-next height amount outputs s words pushed in
    let (images', next') =
      apply_amounts-next height rest u (λ a. ground (arith, words a, next a)) ordered.1 more in
    (
      λ k. images' k ∙ images k,
      λ a.
          ground
            (arith, next a, next' a, ap length (outputs_of-none amount rest ordered.0), words a),
    )

spend_output-keeps :
    (s : BlockChainState) (amount global_index : ℕ) (spent : Bool)
    → ((k : ℕ) → (spend_output s amount global_index spent).keyimages k ≡ s.keyimages k)
      × ((a : ℕ)
          → (spend_output s amount global_index spent).next_gi_for_amount a
            ≡ s.next_gi_for_amount a)
unfolding spend_output
spend_output-keeps s amount global_index spent = (λ k. ground arith, λ a. ground arith)

pub apply_spent-keeps :
    (spent : List (ℕ × ℕ)) (s : BlockChainState)
    → ((k : ℕ) → (apply_spent spent s).keyimages k ≡ s.keyimages k)
      × ((a : ℕ) → (apply_spent spent s).next_gi_for_amount a ≡ s.next_gi_for_amount a)
unfolding apply_spent
apply_spent-keeps [] s = (λ k. refl, λ a. refl)
apply_spent-keeps ((amount, global_index) ∷ rest) s =
    let (images, next) = spend_output-keeps s amount global_index true in
    let (images', next') = apply_spent-keeps rest (spend_output s amount global_index true) in
    (λ k. images' k ∙ images k, λ a. next' a ∙ next a)

-- Where the next indices of the parent are 32-bit numbers, the amounts in the delta ascend as the
-- keys of a map do, and the delta can be applied to its parent, the new state has exactly the key
-- images that the delta reported to its readers, and the next index of every amount is the one
-- that it reported.
pub apply_refines :
    (d : DeltaState) (s : BlockChainState) {t : BlockChainState}
    → HasWords s
    → IsMap d.global_amounts
    → apply d s ≡ some t
    → ((k : ℕ) → is_some (t.keyimages k) ≡ is_some (read_keyimage d (reader s) k))
      × ((a : ℕ) → t.next_gi_for_amount a ≡ next_global_index_for_amount d (reader s) a)
unfolding apply read_keyimage next_global_index_for_amount
apply_refines d s words ordered h =
    let (u, stored, more) = >>=-eq-some (apply_keyimages d.keyimages s) _ h in
    let (v, pushed, spent) = >>=-eq-some (apply_amounts d.block_height d.global_amounts u) _ more in
    let (images, next) = apply_keyimages-stored d.keyimages s stored in
    let (images', next') =
      apply_amounts-next d.block_height d.global_amounts u (λ a. omega (arith, words a, next a))
        ordered pushed in
    let (images'', next'') = apply_spent-keeps d.spent_outputs v in
    (
      λ k.
          ap (λ (w : BlockChainState). is_some (w.keyimages k)) (sym (some_eq spent))
          ∙ ap is_some (images'' k ∙ images' k)
          ∙ images k
          ∙ either k (find d.keyimages k),
      λ a.
          ap (λ (w : BlockChainState). w.next_gi_for_amount a) (sym (some_eq spent))
          ∙ next'' a
          ∙ next' a
          ∙ ap (λ (n : ℕ). (length (outputs_of d.global_amounts a) + n) % 2 ^ 32) (next a),
    )
  where
    either :
        (k : ℕ) (m : Option ℕ)
        → (is_some m || is_some (s.keyimages k))
          ≡ is_some (elim m [ none ↦ s.keyimages k | some height ↦ some d.block_height ])
    either k none = refl
    either k (some height) = refl
