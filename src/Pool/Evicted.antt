-- ===== src/Pool/Evicted.antt =====
-- The loop that shrinks the memory pool ends, without an exception.
use naza.Common.{ℕ, zero, suc, ◌+◌, ◌≤◌, ◌<◌}
use naza.Common.{◌≡◌, refl, sym, ap, ◌∙◌, ◌⊎◌, inl, inr, arith}
use naza.Common.{true, false, ltb, ◌==◌, Bool-cases, ==_refl}
use naza.Common.{Option, none, some, List, [], ◌∷◌, length}
use naza.Pool.{
  PoolTransaction, fee_per_byte, PoolTransMap, MemoryPool, tx_key, find_tx, value_of,
  remove_from_pool, max_pool_size, evict,
}
use naza.Pool.Valid.{has_fee, size_of, IsPool, IsRemoved, remove_from_pool-IsPool}
use naza.Pool.Ordered.{find_key, sum_of}

-- What is in a pool was in another.
abbrev pub Within : MemoryPool → MemoryPool → Type 0
Within p q = (t : ℕ) (o : PoolTransaction) → find_tx q.tx t ≡ some o → find_tx p.tx t ≡ some o

-- The pool is not above its size, or would be below it without the first of its cheapest transactions.
abbrev pub IsSmall : MemoryPool → Type 0
IsSmall p =
    (p.total_size ≤ max_pool_size)
    ⊎ ((fee t : ℕ) × (rest : List (ℕ × ℕ)) × (p.fee_tx ≡ (fee, t) ∷ rest)
        × (o : PoolTransaction) × (find_tx p.tx t ≡ some o)
        × (p.total_size < max_pool_size + length o.binary_tx))

some-none {ℓ} : {A : Type ℓ} {a : A} {m : Option A} → m ≡ some a → m ≡ none → ⊥
some-none h k = cc (sym h ∙ k)

nothing_paid :
    (p : MemoryPool) (entries : PoolTransMap)
    → IsPool p
    → p.tx ≡ entries
    → p.fee_tx ≡ []
    → entries ≡ []
nothing_paid p [] v e h = refl
nothing_paid p ((t, o) ∷ entries) v e h =
    let at : find_tx p.tx t ≡ some o =
      ap (λ (l : PoolTransMap). find_tx l t) e ∙ ap value_of (here t o entries) in
    let paid = v.fee_kept t o at in
    absurd (cc (sym paid ∙ ap (λ (l : List (ℕ × ℕ)). has_fee l (fee_per_byte o) t) h))
  where
    here :
        (t : ℕ) (o : PoolTransaction) (entries : PoolTransMap)
        → find_key tx_key ((t, o) ∷ entries) (t, 0) ≡ some (t, o)
    here t o entries = rw (==_refl t) refl

pub removed-Within :
    (p q : MemoryPool) (tid : ℕ) (own : PoolTransaction) → IsRemoved p q tid own → Within p q
removed-Within p q tid own gone t o h = elim (Bool-cases (t == tid)) [
  | inl e ↦ absurd (some-none (sym (gone.others t) ∙ h) (rw e refl))
  | inr ne ↦ sym (gone.others t ∙ rw ne refl) ∙ h
]

evict_done :
    (fuel : ℕ) (p : MemoryPool) → ltb max_pool_size p.total_size ≡ false → evict fuel p ≡ some p
unfolding evict
evict_done zero p h = rw h refl
evict_done (suc fuel) p h = grind (arith, h)

evict_stop :
    (fuel : ℕ) (p : MemoryPool) (entry : ℕ × ℕ) (rest : List (ℕ × ℕ)) (o : PoolTransaction)
    → ltb max_pool_size p.total_size ≡ true
    → p.fee_tx ≡ entry ∷ rest
    → find_tx p.tx entry.1 ≡ some o
    → ltb p.total_size (max_pool_size + length o.binary_tx) ≡ true
    → evict (suc fuel) p ≡ some p
unfolding evict
evict_stop fuel p entry rest o full fees found small = grind (arith, full, fees, found, small)

evict_more :
    (fuel : ℕ) (p q : MemoryPool) (entry : ℕ × ℕ) (rest : List (ℕ × ℕ)) (o : PoolTransaction)
    → ltb max_pool_size p.total_size ≡ true
    → p.fee_tx ≡ entry ∷ rest
    → find_tx p.tx entry.1 ≡ some o
    → ltb p.total_size (max_pool_size + length o.binary_tx) ≡ false
    → remove_from_pool p entry.1 ≡ some q
    → evict (suc fuel) p ≡ evict fuel q
unfolding evict
evict_more fuel p q entry rest o full fees found large removed =
    grind (arith, full, fees, found, large, removed)

empty_small : (p : MemoryPool) → IsPool p → p.tx ≡ [] → ltb max_pool_size p.total_size ≡ true → ⊥
empty_small p v e full =
    let none_left = v.total ∙ ap (sum_of tx_key size_of) e in ground (arith, none_left, full)

no_length : (entries : PoolTransMap) → length entries ≤ 0 → entries ≡ []
no_length [] h = refl
no_length (e ∷ entries) h = absurd (omega (arith, h))

list_cases :
    (xs : List (ℕ × ℕ)) → (xs ≡ []) ⊎ ((x : ℕ × ℕ) × (rest : List (ℕ × ℕ)) × (xs ≡ x ∷ rest))
list_cases [] = inl refl
list_cases (x ∷ rest) = inr (x, rest, refl)

-- The first of the fees is a transaction's.
first_paid :
    (p : MemoryPool) (entry : ℕ × ℕ) (rest : List (ℕ × ℕ))
    → IsPool p
    → p.fee_tx ≡ entry ∷ rest
    → (o : PoolTransaction) × (find_tx p.tx entry.1 ≡ some o)
first_paid p entry rest v e =
    let there : has_fee p.fee_tx entry.0 entry.1 ≡ true =
      ap (λ (l : List (ℕ × ℕ)). has_fee l entry.0 entry.1) e ∙ here entry in
    let (o, found, fee) = v.fee_found entry.0 entry.1 there in (o, found)
  where
    here : (x : ℕ × ℕ) → has_fee (x ∷ rest) x.0 x.1 ≡ true
    here (f, t) = rw (==_refl f, ==_refl t) refl

-- A round for every transaction is enough.
pub evict-IsPool :
    (fuel : ℕ) (p : MemoryPool)
    → IsPool p
    → length p.tx ≤ fuel
    → (q : MemoryPool) × (evict fuel p ≡ some q) × IsPool q × IsSmall q × Within p q
evict-IsPool zero p v enough = elim (Bool-cases (ltb max_pool_size p.total_size)) [
  | inr fits ↦ (p, evict_done zero p fits, v, inl (ground (arith, fits)), λ t o h. h)
  | inl full ↦ absurd (empty_small p v (no_length p.tx enough) full)
]
evict-IsPool (suc fuel) p v enough = elim (Bool-cases (ltb max_pool_size p.total_size)) [
  | inr fits ↦ (p, evict_done (suc fuel) p fits, v, inl (ground (arith, fits)), λ t o h. h)
  | inl full ↦ elim (list_cases p.fee_tx) [
    | inl nothing ↦ absurd (empty_small p v (nothing_paid p p.tx v refl nothing) full)
    | inr (entry, rest, fees) ↦
        let (o, found) = first_paid p entry rest v fees in
        elim (Bool-cases (ltb p.total_size (max_pool_size + length o.binary_tx))) [
          | inl small ↦ (
            p,
            evict_stop fuel p entry rest o full fees found small,
            v,
            inr (entry.0, entry.1, rest, fees, o, found, ground (arith, small)),
            λ t o h. h,
          )
          | inr large ↦
              let (q, removed, w, gone) = remove_from_pool-IsPool p entry.1 o v found in
              let (r, run, u, fits, within) =
                evict-IsPool fuel q w (omega (arith, gone.count, enough)) in
              (
                r,
                evict_more fuel p q entry rest o full fees found large removed ∙ run,
                u,
                fits,
                λ t x h. removed-Within p q entry.1 o gone t x (within t x h),
              )
        ]
  ]
]
