-- ===== src/Pool/Tests.antt =====
-- The theorems about the memory pool at a transaction that spends one output.
use naza.Common.{[], ◌∷◌, none, some}
use naza.Common.{◌≡◌, refl, true, false, ◌==◌, if◌then◌else◌, arith}
use naza.Transaction.{Transaction, key_input, key_output}
use naza.Semantic.{get_tx_fee}
use naza.Semantic.Sound.{HasWords}
use naza.Currency.{make_currency}
use naza.State.{BlockChainState}
use naza.State.Redo.{RingCheck}
use naza.Pool.{
  MemoryPool, fee_or_zero, UndoneMap, add_transaction, on_reorganization, on_store_keyimage,
}
use naza.Pool.{PoolTransaction, insert_all, insert_images}
use naza.Pool.Inserted.{insert_all-IsPool}
use mathlib.Core.Path.{subst}
use naza.Common.Options.{some_eq}
use naza.Common.{sym, ◌∙◌}
use naza.State.{put}
use naza.Pool.Valid.{IsPool}
use naza.Pool.TakenIn.{Answered}
use naza.Pool.Added.{add_transaction-IsPool}
use naza.Pool.Evicted.{Within}
use naza.Pool.Displaced.{on_store_keyimage-IsPool}
use naza.Pool.Refilled.{empty-IsPool, on_reorganization-IsPool}

abbrev empty_pool : MemoryPool
empty_pool = record { tx = []; ki_tx = λ k. none; fee_tx = []; total_size = 0; version = 2 }

-- A state with one output of the amount 70.
abbrev chain : BlockChainState
chain = record {
  keyimages = λ k. none;
  amount_outputs = λ a i.
      if a == 70
      then if i == 0
        then some (record { unlock_time = 0; public_key = 8; height = 1; spent = false })
        else none
      else none;
  next_gi_for_amount = λ a. if a == 70 then 1 else 0;
}

abbrev paying : Transaction
paying = record {
  version = 1;
  unlock_time = 0;
  inputs = key_input 70 (0 ∷ []) 11 ∷ [];
  outputs = record { amount = 60; target = key_output 9 } ∷ [];
  extra = [];
  signatures = (5 ∷ []) ∷ [];
}

abbrev passing : RingCheck
passing hash image keys signature = (true, false)

paying-HasWords : HasWords paying
paying-HasWords = ((omega arith, tt), (omega arith, tt))

add_transaction-IsPool_example :
    Answered
      (add_transaction
        (make_currency false)
        passing
        (λ tx. 0)
        (λ k. true)
        empty_pool
        chain
        21
        paying
        (1 ∷ 2 ∷ [])
        3
        0
        true)
      empty_pool
      21
      (record {
        tx = paying;
        binary_tx = 1 ∷ 2 ∷ [];
        fee = fee_or_zero (get_tx_fee paying);
        timestamp = 0;
      })
add_transaction-IsPool_example =
    add_transaction-IsPool (make_currency false) passing (λ tx. 0) (λ k. true) empty_pool chain 21
      paying (1 ∷ 2 ∷ []) 3 0 true (empty-IsPool empty_pool) paying-HasWords

abbrev undone : UndoneMap
undone = (21, (paying, 1 ∷ 2 ∷ [])) ∷ []

abbrev paid : PoolTransaction
paid = record { tx = paying; binary_tx = 1 ∷ 2 ∷ []; fee = 10; timestamp = 0 }

-- The pool with that transaction alone.
abbrev one_pool : MemoryPool
one_pool = record {
  tx = (21, paid) ∷ [];
  ki_tx = put (λ k. none) 11 (some 21);
  fee_tx = (5, 21) ∷ [];
  total_size = 2;
  version = 2;
}

one_pool_run : insert_all empty_pool 21 paid ((11, 3) ∷ []) ≡ some one_pool
unfolding insert_all insert_images
one_pool_run = refl

one_pool-IsPool : IsPool one_pool
one_pool-IsPool =
    let (q, run, v, txs) =
      insert_all-IsPool empty_pool 21 paid ((11, 3) ∷ []) (empty-IsPool empty_pool) refl (refl, tt)
        (λ k. ground arith) (λ k h. refl) (refl, tt) in
    subst IsPool (some_eq (sym run ∙ one_pool_run)) v

on_store_keyimage-IsPool_example :
    (q : MemoryPool) × (on_store_keyimage one_pool 11 ≡ some q)
    × IsPool q
    × (q.ki_tx 11 ≡ none)
    × Within one_pool q
on_store_keyimage-IsPool_example = on_store_keyimage-IsPool one_pool 11 one_pool-IsPool

on_reorganization-IsPool_example :
    (q : MemoryPool) × (on_reorganization
        (make_currency false)
        passing
        (λ tx. 0)
        (λ k. true)
        one_pool
        chain
        3
        0
        undone
        true
      ≡ some q)
    × IsPool q
    × (q.version ≡ 2)
on_reorganization-IsPool_example =
    on_reorganization-IsPool (make_currency false) passing (λ tx. 0) (λ k. true) one_pool chain 3 0
      undone true one_pool-IsPool (paying-HasWords, tt) (paying-HasWords, tt)
