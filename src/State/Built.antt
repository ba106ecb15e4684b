-- ===== src/State/Built.antt =====
-- A state after a part of a block: what the state before the block holds, with the key images, the
-- outputs and the marks of that part. The steps of `undo_block` take the part back.
pub mod Step
pub mod Content
pub mod Undo
pub mod Applied
use Prim.Native.Nat.{max, min}
use mathlib.Core.List.{append-nil, append_assoc}
use mathlib.Core.Path.{subst, fun_ext}
use native.Mathlib.Decide.{dec_le, dec_lt, ℕ_discrete}
use native.Mathlib.Nat.{mod-eq_of_lt}
use naza.Common.{ℕ, zero, suc, ◌+◌, ◌-◌, ◌*◌, ◌%◌, ◌^◌, ◌≤◌, ◌<◌}
use naza.Common.{◌≡◌, refl, sym, ap, ◌∙◌, ◌≢◌, ◌⊎◌, inl, inr, arith}
use naza.Common.{
  Bool, true, false, not, ◌&&◌, ◌||◌, ltb, leb, ◌==◌, if◌then◌else◌, Bool-cases, ==_refl,
}
use naza.Common.{Option, none, some, List, [], ◌∷◌, ◌++◌, map, All}
use naza.Common.{length, length-append, get_elem?}
use naza.Common.Options.{◌>>=◌, ◌>>◌, guard, >>=-eq-some, some_eq, Option-cases}
use naza.Transaction.{TransactionInput, coinbase_input, key_input, TransactionOutput, Transaction}
use naza.Semantic.{get_key}
use naza.State.{
  UnlockTimePublickKeyHeightSpent, BlockChainState, IBlockChainState, put, is_some, reader,
}
use naza.State.{
  store_keyimage, delete_keyimage, push_amount_output, pop_amount_output, spend_output,
}
use naza.State.Store.{Same, IsFilled, put_eq, put_ne, pop_amount_output-last, is_some-false}
use naza.State.Keys.{get_elem?-last}
use naza.State.Apply.{
  apply, apply_keyimages, apply_amounts, apply_outputs, apply_spent, undo_outputs, unspend,
  undo_inputs, undo_transaction, undo_transactions, undo_block,
}

-- The images, the outputs by amount as pairs of an unlock time and a key, and the spent outputs.
abbrev pub Images : Type 0
Images = ℕ → Option ℕ

abbrev pub Outputs : Type 0
Outputs = ℕ → List (ℕ × ℕ)

abbrev pub Marks : Type 0
Marks = ℕ → ℕ → Bool

abbrev pub or_else {ℓ} : {A : Type ℓ} → Option A → Option A → Option A
or_else none other = other
or_else (some a) other = some a

abbrev pub mark_spent :
    Bool → Option UnlockTimePublickKeyHeightSpent → Option UnlockTimePublickKeyHeightSpent
mark_spent true (some unp) = some (record unp { spent = true })
mark_spent m unp = unp

abbrev pub new_output : ℕ → Option (ℕ × ℕ) → Option UnlockTimePublickKeyHeightSpent
new_output height none = none
new_output height (some output) =
    some (record { unlock_time = output.0; public_key = output.1; height = height; spent = false })

abbrev pub built : BlockChainState → ℕ → Images → Outputs → Marks → BlockChainState
built s height images outputs marks = record {
  keyimages = λ k. or_else (images k) (s.keyimages k);
  amount_outputs = λ a i.
      if ltb i (s.next_gi_for_amount a)
      then mark_spent (marks a i) (s.amount_outputs a i)
      else new_output height (get_elem? (outputs a) (i - s.next_gi_for_amount a));
  next_gi_for_amount = λ a. s.next_gi_for_amount a + length (outputs a);
}

abbrev pub add_output : Outputs → ℕ → ℕ × ℕ → Outputs
add_output outputs amount output = put outputs amount (outputs amount ++ output ∷ [])

abbrev pub add_mark : Marks → ℕ → ℕ → Marks
add_mark marks amount i = λ a j. (a == amount && j == i) || marks a j

pub Same-eq : (s t : BlockChainState) → Same s t → s ≡ t
Same-eq s t e = λ i. record {
  keyimages = fun_ext e.keyimages i;
  amount_outputs = fun_ext (λ a. fun_ext (e.outputs a)) i;
  next_gi_for_amount = fun_ext e.next i;
}

-- With no part of a block the state is what it was.
pub built-nothing :
    (s : BlockChainState) (height : ℕ)
    → IsFilled s
    → built s height (λ k. none) (λ a. []) (λ a i. false) ≡ s
built-nothing s height f = Same-eq (built s height (λ k. none) (λ a. []) (λ a i. false)) s (record {
  keyimages = λ k. refl;
  outputs = λ a i. elim (Bool-cases (ltb i (s.next_gi_for_amount a))) [
    | inl old ↦ rw old (unmarked (s.amount_outputs a i))
    | inr above ↦ rw above (sym (is_some-false (s.amount_outputs a i) (f.filled a i ∙ above)))
  ];
  next = λ a. omega arith;
})
  where
    unmarked : (o : Option UnlockTimePublickKeyHeightSpent) → mark_spent false o ≡ o
    unmarked none = refl
    unmarked (some unp) = refl

get_elem?-before :
    (xs : List (ℕ × ℕ)) (x : ℕ × ℕ) (i : ℕ)
    → i ≢ length xs
    → get_elem? (xs ++ x ∷ []) i ≡ get_elem? xs i
get_elem?-before [] x i h = ground (arith, h)
get_elem?-before (y ∷ xs) x i h = ground (arith, h, get_elem?-before xs x (i - 1))

is_some-get_elem? : (xs : List (ℕ × ℕ)) (i : ℕ) → is_some (get_elem? xs i) ≡ ltb i (length xs)
is_some-get_elem? [] i = ground arith
is_some-get_elem? (y ∷ xs) i = ground (arith, is_some-get_elem? xs (i - 1))

-- An output of an amount with `next` outputs before and `xs` added.
abbrev pub cell :
    ℕ
    → ℕ
    → List (ℕ × ℕ)
    → ℕ
    → Option UnlockTimePublickKeyHeightSpent
    → Option UnlockTimePublickKeyHeightSpent
cell height next xs i old = if ltb i next then old else new_output height (get_elem? xs (i - next))

pub cell-last :
    (height next : ℕ) (xs : List (ℕ × ℕ)) (x : ℕ × ℕ) (i : ℕ)
    (old : Option UnlockTimePublickKeyHeightSpent)
    → i ≡ next + length xs
    → cell height next (xs ++ x ∷ []) i old ≡ new_output height (some x)
cell-last height next xs x i old e =
    let above : ltb i next ≡ false = ground arith in
    let offset : i - next ≡ length xs = omega arith in rw (above, offset, get_elem?-last xs x) refl

pub cell-before :
    (height next : ℕ) (xs : List (ℕ × ℕ)) (x : ℕ × ℕ) (i : ℕ)
    (old : Option UnlockTimePublickKeyHeightSpent)
    → i ≢ next + length xs
    → cell height next (xs ++ x ∷ []) i old ≡ cell height next xs i old
cell-before height next xs x i old ne = elim (Bool-cases (ltb i next)) [
  | inl below ↦ rw below refl
  | inr above ↦ rw (above, get_elem?-before xs x (i - next) (ground arith)) refl
]

pub is_some-cell :
    (height next : ℕ) (xs : List (ℕ × ℕ)) (i : ℕ) (m : Bool)
    (old : Option UnlockTimePublickKeyHeightSpent)
    → is_some old ≡ ltb i next
    → is_some (cell height next xs i (mark_spent m old)) ≡ ltb i (next + length xs)
is_some-cell height next xs i m old e = elim (Bool-cases (ltb i next)) [
  | inl below ↦ rw below (marked m old ∙ e ∙ ground arith)
  | inr above ↦
      rw above (new (get_elem? xs (i - next)) ∙ is_some-get_elem? xs (i - next) ∙ ground arith)
]
  where
    marked :
        (m : Bool) (o : Option UnlockTimePublickKeyHeightSpent)
        → is_some (mark_spent m o) ≡ is_some o
    marked false none = refl
    marked true none = refl
    marked false (some unp) = refl
    marked true (some unp) = refl

    new : (o : Option (ℕ × ℕ)) → is_some (new_output height o) ≡ is_some o
    new none = refl
    new (some output) = refl

-- There are indices for all the outputs.
abbrev pub Room : BlockChainState → Outputs → Type 0
Room s outputs = (a : ℕ) → s.next_gi_for_amount a + length (outputs a) < 2 ^ 32

pub built-IsFilled :
    (s : BlockChainState) (height : ℕ) (images : Images) (outputs : Outputs) (marks : Marks)
    → IsFilled s
    → Room s outputs
    → IsFilled (built s height images outputs marks)
built-IsFilled s height images outputs marks f room = record {
  filled = λ a i.
      is_some-cell height (s.next_gi_for_amount a) (outputs a) i (marks a i) (s.amount_outputs a i)
        (f.filled a i);
  word = λ a. room a;
}
