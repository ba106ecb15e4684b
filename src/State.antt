-- ===== src/State.antt =====
-- Core/BlockChainState.hpp and .cpp: the key images and the outputs of the chain, as the database
-- holds them. The two prefixes of the database are two maps here, by the key image and by the amount
-- and the index that the keys of the database spell (Sqlite4 is about that spelling). `none` stands
-- for an exception. What `store_keyimage` does with the memory pool is in Pool.
pub mod Store
pub mod Delta
pub mod Apply
pub mod Keys
pub mod Refines
pub mod Built
pub mod Redo
mod Tests
use naza.Common.{ℕ, ◌+◌, ◌-◌, ◌%◌, ◌^◌, Option, none, some}
use naza.Common.Options.{◌>>=◌, ◌>>◌, guard}
use naza.Common.{Bool, true, false, not, ◌&&◌, ◌==◌, if◌then◌else◌}

pub record UnlockTimePublickKeyHeightSpent : Type 0 where
  pub unlock_time : ℕ
  pub public_key : ℕ
  pub height : ℕ
  pub spent : Bool

-- The database under the two prefixes, and `m_next_gi_for_amount`.
pub record BlockChainState : Type 0 where
  pub keyimages : ℕ → Option ℕ
  pub amount_outputs : ℕ → ℕ → Option UnlockTimePublickKeyHeightSpent
  pub next_gi_for_amount : ℕ → ℕ

-- What `IBlockChainState` lets a reader ask.
pub record IBlockChainState : Type 0 where
  pub read_keyimage : ℕ → Option ℕ
  pub next_global_index_for_amount : ℕ → ℕ
  pub read_amount_output : ℕ → ℕ → Option UnlockTimePublickKeyHeightSpent

abbrev pub put {ℓ} : {A : Type ℓ} → (ℕ → A) → ℕ → A → ℕ → A
put f k v x = if x == k then v else f x

abbrev pub is_some {ℓ} : {A : Type ℓ} → Option A → Bool
is_some none = false
is_some (some a) = true

-- `m_db.put(key, value, true)` throws where the key is there, `m_db.del(key, true)` where it is not.
unfoldable pub store_keyimage : BlockChainState → ℕ → ℕ → Option BlockChainState
store_keyimage s key_image height =
    guard (not (is_some (s.keyimages key_image)))
    >> some (record s { keyimages = put s.keyimages key_image (some height) })

unfoldable pub delete_keyimage : BlockChainState → ℕ → Option BlockChainState
delete_keyimage s key_image =
    guard (is_some (s.keyimages key_image))
    >> some (record s { keyimages = put s.keyimages key_image none })

-- The state and the index of the new output.
unfoldable pub push_amount_output : BlockChainState → ℕ → ℕ → ℕ → ℕ → Option (BlockChainState × ℕ)
push_amount_output s amount unlock_time block_height pk =
    let my_gi = s.next_gi_for_amount amount in
    let unp : UnlockTimePublickKeyHeightSpent = record {
      unlock_time = unlock_time;
      public_key = pk;
      height = block_height;
      spent = false;
    } in
    let pushed : BlockChainState = record s {
      amount_outputs = put s.amount_outputs amount (put (s.amount_outputs amount) my_gi (some unp));
      next_gi_for_amount = put s.next_gi_for_amount amount ((my_gi + 1) % 2 ^ 32);
    } in
    guard (not (is_some (s.amount_outputs amount my_gi))) >> some (pushed, my_gi)

unfoldable pub pop_amount_output : BlockChainState → ℕ → ℕ → ℕ → Option BlockChainState
pop_amount_output s amount unlock_time pk =
    let next_gi = s.next_gi_for_amount amount - 1 in
    guard (not (s.next_gi_for_amount amount == 0)) >> s.amount_outputs amount next_gi >>= λ unp.
    guard (not unp.spent && unp.unlock_time == unlock_time && unp.public_key == pk)
    >> some (record s {
      amount_outputs = put s.amount_outputs amount (put (s.amount_outputs amount) next_gi none);
      next_gi_for_amount = put s.next_gi_for_amount amount next_gi;
    })

unfoldable pub spend_output : BlockChainState → ℕ → ℕ → Bool → BlockChainState
spend_output s amount global_index spent = elim (s.amount_outputs amount global_index) [
  | none ↦ s
  | some was ↦ record s {
    amount_outputs =
        put s.amount_outputs amount
          (put (s.amount_outputs amount) global_index (some (record was { spent = spent })));
  }
]

abbrev pub reader : BlockChainState → IBlockChainState
reader s = record {
  read_keyimage = s.keyimages;
  next_global_index_for_amount = s.next_gi_for_amount;
  read_amount_output = s.amount_outputs;
}
