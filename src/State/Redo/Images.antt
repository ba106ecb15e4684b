-- ===== src/State/Redo/Images.antt =====
-- Key images that are added one by one, none of them twice.
use naza.Common.{ℕ, List, [], ◌∷◌, ◌++◌, some}
use naza.Common.{◌≡◌, refl, sym, ap, ◌∙◌, inl, inr, arith}
use naza.Common.{Bool, true, false, ◌||◌, ltb, ◌==◌, Bool-cases}
use naza.Transaction.{TransactionInput, coinbase_input, key_input, Transaction}
use naza.State.{is_some}
use naza.State.Delta.{DeltaState, find, insert, store_keyimage}

-- From the set `before`, every one of the numbers is new when it is added, and `after` is what comes
-- out.
abbrev pub Added : (ℕ → Bool) → List ℕ → (ℕ → Bool) → Type 0
Added before [] after = (k : ℕ) → after k ≡ before k
Added before (x ∷ xs) after = (before x ≡ false) × Added (λ k. k == x || before k) xs after

abbrev pub images_in : List TransactionInput → List ℕ
images_in [] = []
images_in (coinbase_input block_index ∷ inputs) = images_in inputs
images_in (key_input amount output_indexes key_image ∷ inputs) = key_image ∷ images_in inputs

abbrev pub images_of : List Transaction → List ℕ
images_of [] = []
images_of (tx ∷ txs) = images_in tx.inputs ++ images_of txs

-- The key images of a delta.
abbrev pub has : List (ℕ × ℕ) → ℕ → Bool
has keyimages k = is_some (find keyimages k)

pub Added-cong :
    (before before' after after' : ℕ → Bool) (xs : List ℕ)
    → ((k : ℕ) → before' k ≡ before k)
    → ((k : ℕ) → after' k ≡ after k)
    → Added before xs after
    → Added before' xs after'
Added-cong before before' after after' [] eb ea h = λ k. ea k ∙ h k ∙ sym (eb k)
Added-cong before before' after after' (x ∷ xs) eb ea (new, rest) = (
  eb x ∙ new,
  Added-cong (λ k. k == x || before k) (λ k. k == x || before' k) after after' xs
      (λ k. ap (λ (b : Bool). k == x || b) (eb k)) ea rest,
)

pub Added-append :
    (before mid after : ℕ → Bool) (xs ys : List ℕ)
    → Added before xs mid
    → Added mid ys after
    → Added before (xs ++ ys) after
Added-append before mid after [] ys h k =
    Added-cong mid before after after ys (λ j. sym (h j)) (λ j. refl) k
Added-append before mid after (x ∷ xs) ys (new, rest) k =
    (new, Added-append (λ j. j == x || before j) mid after xs ys rest k)

Added-mono :
    (before after : ℕ → Bool) (xs : List ℕ) (k : ℕ)
    → Added before xs after
    → before k ≡ true
    → after k ≡ true
Added-mono before after [] k h e = h k ∙ e
Added-mono before after (x ∷ xs) k (new, rest) e =
    Added-mono (λ j. j == x || before j) after xs k rest (ground (arith, e))

-- What is new stays new beside another set that holds none of it.
pub Added-beside :
    (before after other : ℕ → Bool) (xs : List ℕ)
    → ((k : ℕ) → after k ≡ true → other k ≡ false)
    → Added before xs after
    → Added (λ k. before k || other k) xs (λ k. after k || other k)
Added-beside before after other [] apart h = λ k. ap (λ (b : Bool). b || other k) (h k)
Added-beside before after other (x ∷ xs) apart (new, rest) =
    let there : after x ≡ true =
      Added-mono (λ j. j == x || before j) after xs x rest (ground arith) in
    let free : other x ≡ false = apart x there in
    (
      ground (arith, new, free),
      Added-cong (λ k. (k == x || before k) || other k) (λ k. k == x || (before k || other k))
          (λ k. after k || other k) (λ k. after k || other k) xs (λ k. ground arith) (λ k. refl)
          (Added-beside (λ j. j == x || before j) after other xs apart rest),
    )

has-insert :
    (entries : List (ℕ × ℕ)) (key_image height k : ℕ)
    → has (insert entries key_image height) k ≡ (k == key_image || has entries k)
has-insert [] key_image height k = ground arith
has-insert ((j, w) ∷ entries) key_image height k = elim (Bool-cases (ltb key_image j)) [
  | inl before ↦ rw before (ground arith)
  | inr behind ↦ rw behind (ground (arith, has-insert entries key_image height k))
]

-- A delta only stores a key image that it does not have.
pub store_keyimage-Added :
    (d : DeltaState) (key_image height : ℕ) (e : DeltaState)
    → store_keyimage d key_image height ≡ some e
    → Added (has d.keyimages) (key_image ∷ []) (has e.keyimages)
unfolding store_keyimage
store_keyimage-Added d key_image height e h = elim (Bool-cases (has d.keyimages key_image)) [
  | inl there ↦ absurd (clash there)
  | inr free ↦ (
    free,
    λ k.
        ap (λ (f : DeltaState). has f.keyimages k) (sym (same free))
        ∙ has-insert d.keyimages key_image height k,
  )
]
  where
    clash : has d.keyimages key_image ≡ true → ⊥
    clash there = grind (arith, there, h)

    same :
        has d.keyimages key_image ≡ false
        → record d { keyimages = insert d.keyimages key_image height } ≡ e
    same free = grind (arith, free, h)
