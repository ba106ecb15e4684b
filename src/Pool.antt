-- ===== src/Pool.antt =====
-- The memory pool of Core/BlockChainState.cpp: the transactions that wait for a block. The maps of the
-- pool are lists in the order of their keys, and the map from a fee for a byte to a set of hashes is
-- the list of its pairs; the map of key images, which is only looked up, is a function. Hashes are
-- numbers in the order of the hashes. The sizes of what is in memory do not wrap, and a
-- transaction has bytes, so that its fee for a byte is defined. `none` stands for an
-- exception; the height of a conflict, which callers get through a pointer, is left out.
pub mod Ordered
pub mod Valid
pub mod Evicted
pub mod Displaced
pub mod Inserted
pub mod Calm
pub mod TakenIn
pub mod Added
pub mod Refilled
mod Tests
use naza.Common.{
  ℕ, zero, suc, ◌+◌, ◌-◌, ◌/◌, ◌%◌, ◌^◌, List, [], ◌∷◌, ◌++◌, Option, none, some, length,
}
use naza.Common.{Bool, true, false, not, ◌&&◌, ◌||◌, ltb, leb, ◌==◌, if◌then◌else◌}
use naza.Common.Options.{◌>>=◌, ◌>>◌, guard}
use naza.Transaction.{TransactionInput, coinbase_input, key_input, Transaction}
use naza.Semantic.{Checked, fails, passes, validate_semantic, get_tx_fee}
use naza.Currency.{Currency}
use naza.State.{BlockChainState, IBlockChainState, reader, is_some, put}
use naza.State.Delta.{DeltaState}
use naza.State.Redo.{
  Redone, redo_throws, redo_fails, redo_passes, RingCheck, redo_transaction_get_error,
}
use naza.Pool.Ordered.{find_key, insert_key, erase_key}

pub record PoolTransaction : Type 0 where
  pub tx : Transaction
  pub binary_tx : List ℕ
  pub fee : ℕ
  pub timestamp : ℕ

abbrev pub fee_per_byte : PoolTransaction → ℕ
fee_per_byte p = p.fee / length p.binary_tx

pub data AddTransactionResult : Type 0 where
  ban : AddTransactionResult
  broadcast_all : AddTransactionResult
  already_in_pool : AddTransactionResult
  increase_fee : AddTransactionResult
  failed_to_redo : AddTransactionResult
  output_already_spent : AddTransactionResult

abbrev pub PoolTransMap : Type 0
PoolTransMap = List (ℕ × PoolTransaction)

-- The fields `m_memory_state_tx`, `m_memory_state_ki_tx`, `m_memory_state_fee_tx`,
-- `m_memory_state_total_size` and `m_tx_pool_version`.
pub record MemoryPool : Type 0 where
  pub tx : PoolTransMap
  pub ki_tx : ℕ → Option ℕ
  pub fee_tx : List (ℕ × ℕ)
  pub total_size : ℕ
  pub version : ℕ

abbrev pub max_pool_size : ℕ
max_pool_size = 2000000

abbrev pub tx_key : ℕ × PoolTransaction → ℕ × ℕ
tx_key entry = (entry.0, 0)

abbrev pub fee_key : ℕ × ℕ → ℕ × ℕ
fee_key entry = entry

abbrev pub value_of : Option (ℕ × PoolTransaction) → Option PoolTransaction
value_of none = none
value_of (some entry) = some entry.1

abbrev pub find_tx : PoolTransMap → ℕ → Option PoolTransaction
find_tx entries tid = value_of (find_key tx_key entries (tid, 0))

-- The overload of `get_tx_fee` that answers 0 where there is no fee.
abbrev pub fee_or_zero : Option ℕ → ℕ
fee_or_zero none = 0
fee_or_zero (some fee) = fee

-- The least fee for a byte and the first transaction that has it.
unfoldable pub minimum_pool_fee_per_byte : MemoryPool → ℕ × ℕ
minimum_pool_fee_per_byte p = elim p.fee_tx [ [] ↦ (0, 0) | entry ∷ rest ↦ entry ]

-- The key images of the inputs are erased; whether all of them were there.
unfoldable pub erase_images : List TransactionInput → (ℕ → Option ℕ) → Bool × (ℕ → Option ℕ)
erase_images [] ki = (true, ki)
erase_images (coinbase_input block_index ∷ inputs) ki = erase_images inputs ki
erase_images (key_input amount output_indexes key_image ∷ inputs) ki =
    let rest = erase_images inputs (put ki key_image none) in
    (is_some (ki key_image) && rest.0, rest.1)

unfoldable pub remove_from_pool : MemoryPool → ℕ → Option MemoryPool
remove_from_pool p tid = elim (find_tx p.tx tid) [
  | none ↦ some p
  | some own ↦
      let erased = erase_images own.tx.inputs p.ki_tx in
      let entry : ℕ × ℕ = (fee_per_byte own, tid) in
      guard (erased.0 && is_some (find_key fee_key p.fee_tx entry))
      >> some (record p {
        tx = erase_key tx_key p.tx (tid, 0);
        ki_tx = erased.1;
        fee_tx = erase_key fee_key p.fee_tx entry;
        total_size = p.total_size - length own.binary_tx;
      })
]

-- What `store_keyimage` of the chain's state does with the pool: a transaction that spends what a
-- block spends leaves it.
unfoldable pub on_store_keyimage : MemoryPool → ℕ → Option MemoryPool
on_store_keyimage p key_image = elim (p.ki_tx key_image) [
  | none ↦ some p
  | some tid ↦ remove_from_pool p tid
]

-- The transactions of undone blocks with their bytes, by their hashes.
abbrev pub UndoneMap : Type 0
UndoneMap = List (ℕ × (Transaction × List ℕ))

abbrev pub as_undone : PoolTransMap → UndoneMap
as_undone [] = []
as_undone ((tid, own) ∷ entries) = (tid, (own.tx, own.binary_tx)) ∷ as_undone entries

-- Whether a transaction loses against another one with one of its key images.
abbrev pub loses : ℕ → ℕ → ℕ → PoolTransaction → Bool
loses tid my_fee_per_byte other_tid other =
    ltb my_fee_per_byte (fee_per_byte other)
    || (my_fee_per_byte == fee_per_byte other && ltb tid other_tid)

-- The first loop over the inputs, which ends at the first conflict.
unfoldable pub loses_first : MemoryPool → ℕ → ℕ → List TransactionInput → Option Bool
loses_first p tid my_fee_per_byte [] = some false
loses_first p tid my_fee_per_byte (coinbase_input block_index ∷ inputs) =
    loses_first p tid my_fee_per_byte inputs
loses_first p tid my_fee_per_byte (key_input amount output_indexes key_image ∷ inputs) =
    elim (p.ki_tx key_image) [
      | none ↦ loses_first p tid my_fee_per_byte inputs
      | some other_tid ↦
          find_tx p.tx other_tid >>= λ other. some (loses tid my_fee_per_byte other_tid other)
    ]

-- Whether the chain has the key image of an input.
unfoldable pub spent_in_chain : BlockChainState → List TransactionInput → Bool
spent_in_chain s [] = false
spent_in_chain s (coinbase_input block_index ∷ inputs) = spent_in_chain s inputs
spent_in_chain s (key_input amount output_indexes key_image ∷ inputs) =
    is_some (s.keyimages key_image) || spent_in_chain s inputs

-- The loop that removes the transactions with the same key images; `true` where it meets one that
-- the new transaction loses against.
unfoldable pub displace : ℕ → ℕ → List (ℕ × ℕ) → MemoryPool → Option (Bool × MemoryPool)
displace tid my_fee_per_byte [] p = some (false, p)
displace tid my_fee_per_byte ((key_image, height) ∷ rest) p = elim (p.ki_tx key_image) [
  | none ↦ displace tid my_fee_per_byte rest p
  | some other_tid ↦ find_tx p.tx other_tid >>= λ other.
      elim (loses tid my_fee_per_byte other_tid other) [
        | true ↦ some (true, p)
        | false ↦ remove_from_pool p other_tid >>= λ q. displace tid my_fee_per_byte rest q
      ]
]

-- The key images of the new transaction; whether none of them was there.
unfoldable pub insert_images : ℕ → List (ℕ × ℕ) → (ℕ → Option ℕ) → Bool × (ℕ → Option ℕ)
insert_images tid [] ki = (true, ki)
insert_images tid ((key_image, height) ∷ rest) ki =
    let more =
      insert_images tid rest (if is_some (ki key_image) then ki else put ki key_image (some tid)) in
    (not (is_some (ki key_image)) && more.0, more.1)

unfoldable pub insert_all : MemoryPool → ℕ → PoolTransaction → List (ℕ × ℕ) → Option MemoryPool
insert_all p tid own keyimages =
    let inserted = insert_images tid keyimages p.ki_tx in
    let entry : ℕ × ℕ = (fee_per_byte own, tid) in
    guard (
      inserted.0
      && not (is_some (find_tx p.tx tid))
      && not (is_some (find_key fee_key p.fee_tx entry)))
    >> some (record p {
      tx = insert_key tx_key p.tx (tid, own);
      ki_tx = inserted.1;
      fee_tx = insert_key fee_key p.fee_tx entry;
      total_size = p.total_size + length own.binary_tx;
    })

-- The loop that shrinks the pool, with a round for every transaction.
unfoldable pub evict : ℕ → MemoryPool → Option MemoryPool
evict zero p = guard (not (ltb max_pool_size p.total_size)) >> some p
evict (suc fuel) p = elim (ltb max_pool_size p.total_size) [
  | false ↦ some p
  | true ↦ elim p.fee_tx [
    | [] ↦ none
    | entry ∷ rest ↦ find_tx p.tx entry.1 >>= λ minimal_tx.
        elim (ltb p.total_size (max_pool_size + length minimal_tx.binary_tx)) [
          | true ↦ some p
          | false ↦ remove_from_pool p entry.1 >>= λ q. evict fuel q
        ]
  ]
]

-- The pool is full, and the new transaction pays less than any in it, or as much and comes before.
unfoldable pub too_cheap : MemoryPool → ℕ → ℕ → Bool
too_cheap p tid my_fee_per_byte =
    let minimal = minimum_pool_fee_per_byte p in
    leb max_pool_size p.total_size
    && (ltb my_fee_per_byte minimal.0 || (my_fee_per_byte == minimal.0 && ltb tid minimal.1))

-- What is done with a transaction that the chain's state accepts.
unfoldable pub take_in :
    MemoryPool → ℕ → PoolTransaction → List (ℕ × ℕ) → Option (AddTransactionResult × MemoryPool)
take_in p tid own keyimages = displace tid (fee_per_byte own) keyimages p >>= λ r. elim r.0 [
  | true ↦ some (increase_fee, r.1)
  | false ↦ insert_all r.1 tid own keyimages >>= λ q. evict (length q.tx) q >>= λ e.
      some (broadcast_all, record e { version = (e.version + 1) % 2 ^ 32 })
]

module _ (currency : Currency) (check_ring_signature : RingCheck) (prefix_hash : Transaction → ℕ)
    (key_isvalid : ℕ → Bool) where
  -- The checks against the chain.
  unfoldable pub judge :
      MemoryPool
      → BlockChainState
      → ℕ
      → PoolTransaction
      → ℕ
      → ℕ
      → Bool
      → Option (AddTransactionResult × MemoryPool)
  judge p s tid own unlock_height unlock_timestamp check_sigs =
      let delta : DeltaState = record {
        keyimages = [];
        global_amounts = [];
        spent_outputs = [];
        block_height = unlock_height;
        unlock_timestamp = unlock_timestamp;
      } in
      elim (spent_in_chain s own.tx.inputs) [
        | true ↦ some (output_already_spent, p)
        | false ↦ elim (validate_semantic key_isvalid false own.tx check_sigs) [
          | fails reason ↦ some (ban, p)
          | passes my_fee3 ↦
              elim (redo_transaction_get_error currency check_ring_signature prefix_hash own.tx
                delta (reader s) check_sigs) [
                  | redo_throws ↦ none
                  | redo_fails error conflict_height ↦ some (failed_to_redo, p)
                  | redo_passes r ↦ take_in p tid own r.0.keyimages
                ]
        ]
      ]

  unfoldable pub add_transaction :
      MemoryPool
      → BlockChainState
      → ℕ
      → Transaction
      → List ℕ
      → ℕ
      → ℕ
      → Bool
      → Option (AddTransactionResult × MemoryPool)
  add_transaction p s tid tx binary_tx unlock_height unlock_timestamp check_sigs =
      let own : PoolTransaction = record {
        tx = tx;
        binary_tx = binary_tx;
        fee = fee_or_zero (get_tx_fee tx);
        timestamp = 0;
      } in
      elim (is_some (find_tx p.tx tid)) [
        | true ↦ some (already_in_pool, p)
        | false ↦ elim (too_cheap p tid (fee_per_byte own)) [
          | true ↦ some (increase_fee, p)
          | false ↦ loses_first p tid (fee_per_byte own) tx.inputs >>= λ lost. elim lost [
            | true ↦ some (increase_fee, p)
            | false ↦ judge p s tid own unlock_height unlock_timestamp check_sigs
          ]
        ]
      ]

  -- The loops of `on_reorganization`; the answers of `add_transaction` are not looked at.
  unfoldable pub readd : BlockChainState → ℕ → ℕ → UndoneMap → MemoryPool → Option MemoryPool
  readd s unlock_height unlock_timestamp [] p = some p
  readd s unlock_height unlock_timestamp ((tid, (tx, binary_tx)) ∷ rest) p =
      add_transaction p s tid tx binary_tx unlock_height unlock_timestamp true >>= λ r.
      readd s unlock_height unlock_timestamp rest r.1

  -- With the height after the tip and the time of the tip.
  unfoldable pub on_reorganization :
      MemoryPool → BlockChainState → ℕ → ℕ → UndoneMap → Bool → Option MemoryPool
  on_reorganization p s unlock_height unlock_timestamp undone_transactions undone_blocks =
      let cleared : MemoryPool = record p {
        tx = [];
        ki_tx = λ k. none;
        fee_tx = [];
        total_size = 0;
      } in
      (if undone_blocks
        then readd s unlock_height unlock_timestamp (as_undone p.tx) cleared
        else some p)
      >>= λ q. readd s unlock_height unlock_timestamp undone_transactions q >>= λ r.
          some (record r { version = 2 })
