-- ===== src/State/Delta.antt =====
-- `BlockChainState::DeltaState`: changes kept over a parent state that is only read.
use naza.Common.{ℕ, ◌+◌, ◌-◌, ◌%◌, ◌^◌, List, [], ◌∷◌, ◌++◌, Option, none, some, length}
use naza.Common.Options.{◌>>=◌, ◌>>◌, guard}
use naza.Common.{get_elem?, false, not, ltb, ◌==◌, if◌then◌else◌}
use naza.State.{UnlockTimePublickKeyHeightSpent, IBlockChainState, is_some}

-- The maps are association lists in the order of their keys, as `std::map` iterates.
pub record DeltaState : Type 0 where
  pub keyimages : List (ℕ × ℕ)
  pub global_amounts : List (ℕ × List (ℕ × ℕ))
  pub spent_outputs : List (ℕ × ℕ)
  pub block_height : ℕ
  pub unlock_timestamp : ℕ

abbrev pub find {ℓ} : {A : Type ℓ} → List (ℕ × A) → ℕ → Option A
find [] k = none
find ((j, v) ∷ entries) k = if k == j then some v else find entries k

-- `std::map::insert` of a key that is not there.
abbrev pub insert {ℓ} : {A : Type ℓ} → List (ℕ × A) → ℕ → A → List (ℕ × A)
insert [] k v = (k, v) ∷ []
insert ((j, w) ∷ entries) k v =
    if ltb k j then (k, v) ∷ (j, w) ∷ entries else (j, w) ∷ insert entries k v

-- `m_global_amounts[amount].push_back(output)`
abbrev pub push_at : List (ℕ × List (ℕ × ℕ)) → ℕ → ℕ × ℕ → List (ℕ × List (ℕ × ℕ))
push_at [] amount output = (amount, output ∷ []) ∷ []
push_at ((a, outputs) ∷ entries) amount output =
    if amount == a
    then (a, outputs ++ output ∷ []) ∷ entries
    else if ltb amount a
    then (amount, output ∷ []) ∷ (a, outputs) ∷ entries
    else (a, outputs) ∷ push_at entries amount output

-- The outputs of an amount; none where the map does not have it.
abbrev pub outputs_of : List (ℕ × List (ℕ × ℕ)) → ℕ → List (ℕ × ℕ)
outputs_of [] amount = []
outputs_of ((a, outputs) ∷ entries) amount =
    if amount == a then outputs else outputs_of entries amount

unfoldable pub store_keyimage : DeltaState → ℕ → ℕ → Option DeltaState
store_keyimage d key_image height =
    guard (not (is_some (find d.keyimages key_image)))
    >> some (record d { keyimages = insert d.keyimages key_image height })

-- The height is the delta's own.
unfoldable pub read_keyimage : DeltaState → IBlockChainState → ℕ → Option ℕ
read_keyimage d parent_state key_image = elim (find d.keyimages key_image) [
  | none ↦ parent_state.read_keyimage key_image
  | some height ↦ some d.block_height
]

-- The delta and the index of the new output; the height of a block is not used.
unfoldable pub push_amount_output : DeltaState → IBlockChainState → ℕ → ℕ → ℕ → DeltaState × ℕ
push_amount_output d parent_state amount unlock_time pk =
    let pg = parent_state.next_global_index_for_amount amount in
    let pushed = push_at d.global_amounts amount (unlock_time, pk) in
    (
      record d { global_amounts = pushed },
      (pg + length (outputs_of pushed amount) + 2 ^ 32 - 1) % 2 ^ 32,
    )

unfoldable pub next_global_index_for_amount : DeltaState → IBlockChainState → ℕ → ℕ
next_global_index_for_amount d parent_state amount =
    (length (outputs_of d.global_amounts amount) + parent_state.next_global_index_for_amount amount)
    % 2 ^ 32

unfoldable pub read_amount_output :
    DeltaState → IBlockChainState → ℕ → ℕ → Option UnlockTimePublickKeyHeightSpent
read_amount_output d parent_state amount global_index =
    let pg = parent_state.next_global_index_for_amount amount in
    if ltb global_index pg
    then parent_state.read_amount_output amount global_index
    else get_elem? (outputs_of d.global_amounts amount) (global_index - pg) >>= λ output.
        some (record {
          unlock_time = output.0;
          public_key = output.1;
          height = d.block_height;
          spent = false;
        })

unfoldable pub spend_output : DeltaState → ℕ → ℕ → DeltaState
spend_output d amount global_index = record d {
  spent_outputs = d.spent_outputs ++ (amount, global_index) ∷ [];
}

unfoldable pub clear : DeltaState → ℕ → DeltaState
clear d new_block_height = record d {
  keyimages = [];
  global_amounts = [];
  spent_outputs = [];
  block_height = new_block_height;
}
