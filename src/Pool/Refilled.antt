-- ===== src/Pool/Refilled.antt =====
-- `on_reorganization` refills the memory pool.
use naza.Common.{ℕ, [], ◌∷◌, Option, none, some}
use naza.Common.{◌≡◌, refl, ap, ◌∙◌, Bool, true, false}
use naza.Common.Options.{◌>>=◌}
use naza.Transaction.{Transaction}
use naza.Semantic.Sound.{HasWords}
use naza.Currency.{Currency}
use naza.State.{BlockChainState}
use naza.State.Redo.{RingCheck}
use naza.Pool.{MemoryPool, AddTransactionResult, UndoneMap, as_undone, readd, on_reorganization}
use naza.Pool.Valid.{IsPool}
use naza.Pool.TakenIn.{counted-IsPool}
use naza.Pool.Added.{add_transaction-IsPool}

-- The amounts of the transactions are 64-bit numbers.
abbrev pub AllHaveWords : UndoneMap → Type 0
AllHaveWords [] = Unit
AllHaveWords ((tid, (tx, binary_tx)) ∷ rest) = HasWords tx × AllHaveWords rest

pub empty-IsPool :
    (p : MemoryPool) → IsPool (record p { tx = []; ki_tx = λ k. none; fee_tx = []; total_size = 0 })
empty-IsPool p = record {
  ordered = tt;
  fees_ordered = tt;
  image_found = λ k t h. absurd (nothing h);
  image_kept = λ t k o h e. absurd (nothing h);
  distinct = λ t o h. absurd (nothing h);
  fee_found = λ f t h. absurd (untrue h);
  fee_kept = λ t o h. absurd (nothing h);
  total = refl;
}
  where
    nothing : {A : Type 0} {a : A} → none ≡ some a → ⊥
    nothing h = cc h

    untrue : false ≡ true → ⊥
    untrue h = cc h

module _ (currency : Currency) (check_ring_signature : RingCheck) (prefix_hash : Transaction → ℕ)
    (key_isvalid : ℕ → Bool) where
  readd-IsPool :
      (s : BlockChainState) (h t : ℕ) (undone : UndoneMap) (p : MemoryPool)
      → IsPool p
      → AllHaveWords undone
      → (q : MemoryPool) × (readd currency check_ring_signature prefix_hash key_isvalid s h t undone
            p
          ≡ some q)
        × IsPool q
  unfolding readd
  readd-IsPool s h t [] p v words = (p, refl, v)
  readd-IsPool s h t ((tid, (tx, binary_tx)) ∷ rest) p v (mine, others) =
      let (result, q, run, w, outcome) =
        add_transaction-IsPool currency check_ring_signature prefix_hash key_isvalid p s tid tx
          binary_tx h t true v mine in
      let (r, more, u) = readd-IsPool s h t rest q w others in
      (
        r,
        ap
              (λ (m : Option (AddTransactionResult × MemoryPool)). m >>= λ x.
                readd currency check_ring_signature prefix_hash key_isvalid s h t rest x.1)
              run
            ∙ more,
        u,
      )

  -- For transactions with 64-bit amounts, in the pool and in the undone blocks:
  -- `on_reorganization` on a memory pool whose indices agree throws no exception, and the indices
  -- of the pool that it leaves agree, with the version 2.
  pub on_reorganization-IsPool :
      (p : MemoryPool) (s : BlockChainState) (unlock_height unlock_timestamp : ℕ)
      (undone : UndoneMap) (undone_blocks : Bool)
      → IsPool p
      → AllHaveWords (as_undone p.tx)
      → AllHaveWords undone
      → (q : MemoryPool) × (on_reorganization currency check_ring_signature prefix_hash key_isvalid
            p s unlock_height unlock_timestamp undone undone_blocks
          ≡ some q)
        × IsPool q
        × (q.version ≡ 2)
  on_reorganization-IsPool p s h t undone true v old new =
      let (q, run, w) = readd-IsPool s h t (as_undone p.tx) _ (empty-IsPool p) old in
      let (r, more, u) = readd-IsPool s h t undone q w new in
      (
        record r { version = 2 },
        unfold on_reorganization in rw (run, more) refl,
        counted-IsPool r 2 u,
        refl,
      )
  on_reorganization-IsPool p s h t undone false v old new =
      let (r, more, u) = readd-IsPool s h t undone p v new in
      (
        record r { version = 2 },
        unfold on_reorganization in rw more refl,
        counted-IsPool r 2 u,
        refl,
      )
