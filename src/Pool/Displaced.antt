-- ===== src/Pool/Displaced.antt =====
-- A new transaction displaces those of the memory pool that have one of its key images.
use naza.Common.{ℕ}
use naza.Common.{◌≡◌, refl, ap, ◌∙◌, inl, inr, arith}
use naza.Common.{Bool, true, false, ◌==◌, Bool-cases}
use naza.Common.{none, some, List, [], ◌∷◌}
use naza.Common.Options.{Option-cases}
use naza.Pool.{
  PoolTransaction, MemoryPool, find_tx, remove_from_pool, loses, displace, on_store_keyimage,
}
use naza.Pool.Valid.{has_image, IsPool, IsRemoved, remove_from_pool-IsPool}
use naza.State.Redo.Images.{has}
use naza.Pool.Evicted.{Within, removed-Within}

displace_free :
    (tid fee k h : ℕ) (rest : List (ℕ × ℕ)) (p : MemoryPool)
    → p.ki_tx k ≡ none
    → displace tid fee ((k, h) ∷ rest) p ≡ displace tid fee rest p
unfolding displace
displace_free tid fee k h rest p free = grind (arith, free)

displace_lost :
    (tid fee k h other_tid : ℕ) (rest : List (ℕ × ℕ)) (p : MemoryPool) (o : PoolTransaction)
    → p.ki_tx k ≡ some other_tid
    → find_tx p.tx other_tid ≡ some o
    → loses tid fee other_tid o ≡ true
    → displace tid fee ((k, h) ∷ rest) p ≡ some (true, p)
unfolding displace
displace_lost tid fee k h other_tid rest p o there found lost = grind (arith, there, found, lost)

displace_more :
    (tid fee k h other_tid : ℕ) (rest : List (ℕ × ℕ)) (p q : MemoryPool) (o : PoolTransaction)
    → p.ki_tx k ≡ some other_tid
    → find_tx p.tx other_tid ≡ some o
    → loses tid fee other_tid o ≡ false
    → remove_from_pool p other_tid ≡ some q
    → displace tid fee ((k, h) ∷ rest) p ≡ displace tid fee rest q
unfolding displace
displace_more tid fee k h other_tid rest p q o there found wins removed =
    grind (arith, there, found, wins, removed)

-- What is left of the key images.
abbrev pub Fewer : MemoryPool → MemoryPool → Type 0
Fewer p q = (k : ℕ) → p.ki_tx k ≡ none → q.ki_tx k ≡ none

removed-Fewer :
    (p q : MemoryPool) (tid : ℕ) (own : PoolTransaction) → IsRemoved p q tid own → Fewer p q
removed-Fewer p q tid own gone k h = elim (Bool-cases (has_image own.tx.inputs k)) [
  | inl b ↦ gone.images k ∙ rw b refl
  | inr b ↦ gone.images k ∙ rw b h
]

pub displace-IsPool :
    (tid fee : ℕ) (kis : List (ℕ × ℕ)) (p : MemoryPool)
    → IsPool p
    → (lost : Bool) × (q : MemoryPool) × (displace tid fee kis p ≡ some (lost, q))
      × IsPool q
      × Within p q
      × Fewer p q
      × (lost ≡ false → (k : ℕ) → has kis k ≡ true → q.ki_tx k ≡ none)
displace-IsPool tid fee [] p v =
    (false, p, unfold displace in refl, v, λ t o h. h, λ k h. h, λ e k h. absurd (cc h))
displace-IsPool tid fee ((image, height) ∷ rest) p v = elim (Option-cases (p.ki_tx image)) [
  | inl free ↦
      let (lost, q, run, w, within, fewer, clear) = displace-IsPool tid fee rest p v in
      (
        lost,
        q,
        displace_free tid fee image height rest p free ∙ run,
        w,
        within,
        fewer,
        λ e k h. first image height k rest q (fewer image free) (clear e k) h,
      )
  | inr (other_tid, there) ↦
      let (o, found, mine) = v.image_found image other_tid there in
      elim (Bool-cases (loses tid fee other_tid o)) [
        | inl lost ↦ (
          true,
          p,
          displace_lost tid fee image height other_tid rest p o there found lost,
          v,
          λ t x h. h,
          λ k h. h,
          λ e k h. absurd (cc e),
        )
        | inr wins ↦
            let (q, removed, w, gone) = remove_from_pool-IsPool p other_tid o v found in
            let (lost, r, run, u, within, fewer, clear) = displace-IsPool tid fee rest q w in
            let free : q.ki_tx image ≡ none = gone.images image ∙ rw mine refl in
            (
              lost,
              r,
              displace_more tid fee image height other_tid rest p q o there found wins removed
                  ∙ run,
              u,
              λ t x h. removed-Within p q other_tid o gone t x (within t x h),
              λ k h. fewer k (removed-Fewer p q other_tid o gone k h),
              λ e k h. first image height k rest r (fewer image free) (clear e k) h,
            )
      ]
]
  where
    first :
        (image height k : ℕ) (rest : List (ℕ × ℕ)) (q : MemoryPool)
        → q.ki_tx image ≡ none
        → (has rest k ≡ true → q.ki_tx k ≡ none)
        → has ((image, height) ∷ rest) k ≡ true
        → q.ki_tx k ≡ none
    first image height k rest q free later h = elim (Bool-cases (k == image)) [
      | inl e ↦ let e' : k ≡ image = ground arith in ap q.ki_tx e' ∙ free
      | inr ne ↦ later (ground (arith, h, ne))
    ]

-- In a memory pool whose indices agree, storing a key image in the chain throws no exception; the
-- indices agree afterwards, no transaction in the pool has the key image, and the pool holds
-- nothing that it did not hold before.
pub on_store_keyimage-IsPool :
    (p : MemoryPool) (key_image : ℕ)
    → IsPool p
    → (q : MemoryPool) × (on_store_keyimage p key_image ≡ some q)
      × IsPool q
      × (q.ki_tx key_image ≡ none)
      × Within p q
on_store_keyimage-IsPool p key_image v = elim (Option-cases (p.ki_tx key_image)) [
  | inl free ↦
      (p, unfold on_store_keyimage in rw (on_store_keyimage, free) refl, v, free, λ t o h. h)
  | inr (tid, there) ↦
      let (o, found, mine) = v.image_found key_image tid there in
      let (q, removed, w, gone) = remove_from_pool-IsPool p tid o v found in
      (
        q,
        unfold on_store_keyimage in rw (on_store_keyimage, there) removed,
        w,
        gone.images key_image ∙ rw mine refl,
        removed-Within p q tid o gone,
      )
]
