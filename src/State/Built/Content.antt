-- ===== src/State/Built/Content.antt =====
-- What a block adds to the state: its key images, its outputs in their order, and the outputs that
-- a ring of one member names.
use naza.Common.{ℕ}
use naza.Common.{◌≡◌, refl, ◌∙◌, arith}
use naza.Common.{Bool, false, ◌||◌, ◌==◌}
use naza.Common.{Option, none, some, List, [], ◌∷◌, ◌++◌}
use naza.Transaction.{TransactionInput, coinbase_input, key_input, TransactionOutput, Transaction}
use naza.Semantic.{get_key}
use naza.State.{BlockChainState, put, is_some}
use naza.State.Store.{is_some-false}
use naza.State.Redo.Images.{Added, images_of}
use naza.State.Built.{Images, Outputs, Marks, or_else, built, add_output, add_mark, Room}
use naza.State.Built.Step.{Room-less, Unspent}

-- The amount of an output, and its unlock time and key.
abbrev pub MadeOutput : Type 0
MadeOutput = ℕ × (ℕ × ℕ)

abbrev pub add_images : ℕ → Images → List ℕ → Images
add_images height images [] = images
add_images height images (k ∷ ks) = add_images height (put images k (some height)) ks

abbrev pub add_outputs : Outputs → List MadeOutput → Outputs
add_outputs outputs [] = outputs
add_outputs outputs ((amount, output) ∷ rest) = add_outputs (add_output outputs amount output) rest

abbrev pub add_marks : Marks → List (ℕ × ℕ) → Marks
add_marks marks [] = marks
add_marks marks ((amount, i) ∷ rest) = add_marks (add_mark marks amount i) rest

abbrev pub outputs_in : ℕ → List TransactionOutput → List MadeOutput
outputs_in unlock_time [] = []
outputs_in unlock_time (output ∷ outputs) =
    (output.amount, (unlock_time, get_key output.target)) ∷ outputs_in unlock_time outputs

abbrev pub single : ℕ → List ℕ → List (ℕ × ℕ)
single amount [] = []
single amount (x ∷ []) = (amount, x) ∷ []
single amount (x ∷ y ∷ rest) = []

abbrev pub singles_in : List TransactionInput → List (ℕ × ℕ)
singles_in [] = []
singles_in (coinbase_input block_index ∷ inputs) = singles_in inputs
singles_in (key_input amount output_indexes key_image ∷ inputs) =
    single amount output_indexes ++ singles_in inputs

abbrev pub outputs_made : List Transaction → List MadeOutput
outputs_made [] = []
outputs_made (tx ∷ txs) = outputs_in tx.unlock_time tx.outputs ++ outputs_made txs

abbrev pub singles_of : List Transaction → List (ℕ × ℕ)
singles_of [] = []
singles_of (tx ∷ txs) = singles_in tx.inputs ++ singles_of txs

-- The state after the transactions of a block.
abbrev pub after_block : BlockChainState → ℕ → List Transaction → BlockChainState
after_block s height txs =
    built s height (add_images height (λ k. none) (images_of txs))
      (add_outputs (λ a. []) (outputs_made txs)) (add_marks (λ a i. false) (singles_of txs))

-- Every key image is new when it is added.
abbrev pub New : BlockChainState → ℕ → Images → List ℕ → Type 0
New s height images [] = Unit
New s height images (k ∷ ks) =
    (or_else (images k) (s.keyimages k) ≡ none) × New s height (put images k (some height)) ks

-- The outputs are outputs of the state before, which were not spent, and none is named twice.
abbrev pub Spends : BlockChainState → Marks → List (ℕ × ℕ) → Type 0
Spends s marks [] = Unit
Spends s marks ((amount, i) ∷ rest) =
    Unspent s amount i × (marks amount i ≡ false) × Spends s (add_mark marks amount i) rest

pub add_images-append :
    (height : ℕ) (images : Images) (xs ys : List ℕ)
    → add_images height images (xs ++ ys) ≡ add_images height (add_images height images xs) ys
add_images-append height images [] ys = refl
add_images-append height images (x ∷ xs) ys =
    add_images-append height (put images x (some height)) xs ys

pub add_outputs-append :
    (outputs : Outputs) (xs ys : List MadeOutput)
    → add_outputs outputs (xs ++ ys) ≡ add_outputs (add_outputs outputs xs) ys
add_outputs-append outputs [] ys = refl
add_outputs-append outputs ((amount, output) ∷ xs) ys =
    add_outputs-append (add_output outputs amount output) xs ys

pub add_marks-append :
    (marks : Marks) (xs ys : List (ℕ × ℕ))
    → add_marks marks (xs ++ ys) ≡ add_marks (add_marks marks xs) ys
add_marks-append marks [] ys = refl
add_marks-append marks ((amount, i) ∷ xs) ys = add_marks-append (add_mark marks amount i) xs ys

pub New-append :
    (s : BlockChainState) (height : ℕ) (images : Images) (xs ys : List ℕ)
    → New s height images (xs ++ ys)
    → New s height images xs × New s height (add_images height images xs) ys
New-append s height images [] ys h = (tt, h)
New-append s height images (x ∷ xs) ys (new, h) =
    let (hx, hy) = New-append s height (put images x (some height)) xs ys h in ((new, hx), hy)

pub Spends-append :
    (s : BlockChainState) (marks : Marks) (xs ys : List (ℕ × ℕ))
    → Spends s marks (xs ++ ys)
    → Spends s marks xs × Spends s (add_marks marks xs) ys
Spends-append s marks [] ys h = (tt, h)
Spends-append s marks ((amount, i) ∷ xs) ys h =
    let (hx, hy) = Spends-append s (add_mark marks amount i) xs ys h.2 in ((h.0, h.1, hx), hy)

pub Room-before :
    (s : BlockChainState) (outputs : Outputs) (xs : List MadeOutput)
    → Room s (add_outputs outputs xs)
    → Room s outputs
Room-before s outputs [] h = h
Room-before s outputs ((amount, output) ∷ xs) h =
    Room-less s outputs amount output (Room-before s (add_output outputs amount output) xs h)

-- Images that are added one by one to those of a state are new to it.
pub Added-New :
    (s : BlockChainState) (height : ℕ) (images : Images) (before after : ℕ → Bool) (xs : List ℕ)
    → ((k : ℕ) → is_some (or_else (images k) (s.keyimages k)) ≡ before k)
    → Added before xs after
    → New s height images xs
Added-New s height images before after [] e h = tt
Added-New s height images before after (x ∷ xs) e (new, h) = (
  is_some-false (or_else (images x) (s.keyimages x)) (e x ∙ new),
  Added-New s height (put images x (some height)) (λ k. k == x || before k) after xs
      (λ k. grow images (s.keyimages k) x height k (before k) (e k)) h,
)
  where
    grow :
        (f : Images) (old : Option ℕ) (x height k : ℕ) (b : Bool)
        → is_some (or_else (f k) old) ≡ b
        → is_some (or_else (put f x (some height) k) old) ≡ (k == x || b)
    grow f old x height k b h = grind (arith, h)
