-- ===== src/Pool/Valid.antt =====
-- The indices of the memory pool agree, and a transaction leaves all of them at once.
use naza.Common.{ℕ, ◌+◌, ◌-◌}
use naza.Common.{◌≡◌, refl, sym, ap, ◌∙◌, inl, inr, arith}
use naza.Common.{Bool, true, false, ◌&&◌, ◌||◌, ◌==◌, if◌then◌else◌, Bool-cases, ==_refl}
use naza.Common.{Option, none, some, List, [], ◌∷◌, length}
use naza.Common.Options.{some_eq}
use naza.Transaction.{TransactionInput, coinbase_input, key_input}
use naza.State.{put, is_some}
use naza.Pool.{
  PoolTransaction, fee_per_byte, PoolTransMap, MemoryPool, tx_key, fee_key, find_tx, value_of,
  erase_images, remove_from_pool,
}
use naza.Pool.Ordered.{find_key, erase_key, sum_of, IsOrdered}
use naza.Pool.Ordered.{erase-IsOrdered, find-erase, sum-erase}

abbrev pub has_image : List TransactionInput → ℕ → Bool
has_image [] k = false
has_image (coinbase_input block_index ∷ inputs) k = has_image inputs k
has_image (key_input amount output_indexes key_image ∷ inputs) k =
    k == key_image || has_image inputs k

-- No key image stands twice.
abbrev pub Distinct : List TransactionInput → Type 0
Distinct [] = Unit
Distinct (coinbase_input block_index ∷ inputs) = Distinct inputs
Distinct (key_input amount output_indexes key_image ∷ inputs) =
    (has_image inputs key_image ≡ false) × Distinct inputs

abbrev pub has_fee : List (ℕ × ℕ) → ℕ → ℕ → Bool
has_fee fee_tx fee tid = is_some (find_key fee_key fee_tx (fee, tid))

abbrev pub size_of : ℕ × PoolTransaction → ℕ
size_of entry = length entry.1.binary_tx

-- The maps of the key images and of the fees have exactly what the transactions of the pool have, and
-- the total size is the sum of their sizes.
pub record IsPool (p : MemoryPool) : Type 0 where
  pub ordered : IsOrdered tx_key p.tx
  pub fees_ordered : IsOrdered fee_key p.fee_tx
  pub image_found :
      (k t : ℕ)
      → p.ki_tx k ≡ some t
      → (own : PoolTransaction) × (find_tx p.tx t ≡ some own) × (has_image own.tx.inputs k ≡ true)
  pub image_kept :
      (t k : ℕ) (own : PoolTransaction)
      → find_tx p.tx t ≡ some own
      → has_image own.tx.inputs k ≡ true
      → p.ki_tx k ≡ some t
  pub distinct :
      (t : ℕ) (own : PoolTransaction) → find_tx p.tx t ≡ some own → Distinct own.tx.inputs
  pub fee_found :
      (f t : ℕ)
      → has_fee p.fee_tx f t ≡ true
      → (own : PoolTransaction) × (find_tx p.tx t ≡ some own) × (fee_per_byte own ≡ f)
  pub fee_kept :
      (t : ℕ) (own : PoolTransaction)
      → find_tx p.tx t ≡ some own
      → has_fee p.fee_tx (fee_per_byte own) t ≡ true
  pub total : p.total_size ≡ sum_of tx_key size_of p.tx

erase_images-put :
    (inputs : List TransactionInput) (ki : ℕ → Option ℕ) (k : ℕ)
    → (erase_images inputs ki).1 k ≡ (if has_image inputs k then none else ki k)
unfolding erase_images
erase_images-put [] ki k = refl
erase_images-put (coinbase_input block_index ∷ inputs) ki k = erase_images-put inputs ki k
erase_images-put (key_input amount output_indexes key_image ∷ inputs) ki k =
    erase_images-put inputs (put ki key_image none) k
    ∙ either (has_image inputs k) (k == key_image) (ki k)
  where
    either :
        (b c : Bool) (m : Option ℕ)
        → (if b then none else if c then none else m) ≡ (if c || b then none else m)
    either true true m = refl
    either true false m = refl
    either false true m = refl
    either false false m = refl

erase_images-there :
    (inputs : List TransactionInput) (ki : ℕ → Option ℕ)
    → Distinct inputs
    → ((k : ℕ) → has_image inputs k ≡ true → is_some (ki k) ≡ true)
    → (erase_images inputs ki).0 ≡ true
unfolding erase_images
erase_images-there [] ki d there = refl
erase_images-there (coinbase_input block_index ∷ inputs) ki d there =
    erase_images-there inputs ki d there
erase_images-there (key_input amount output_indexes key_image ∷ inputs) ki (new, d) there =
    rw (there key_image (ground (arith, ==_refl key_image))) (
      erase_images-there inputs (put ki key_image none) d (λ k h.
        elim (Bool-cases (k == key_image)) [
          | inl e ↦ absurd (clash k e h)
          | inr ne ↦ rw ne (there k (ground (arith, h)))
        ]))
  where
    clash : (k : ℕ) → (k == key_image) ≡ true → has_image inputs k ≡ true → ⊥
    clash k e h =
        let same_key : k ≡ key_image = ground arith in
        let there' = sym (ap (has_image inputs) same_key) ∙ h in cc (sym new ∙ there')

pub find_tx-erase :
    (entries : PoolTransMap) (tid t : ℕ)
    → IsOrdered tx_key entries
    → find_tx (erase_key tx_key entries (tid, 0)) t ≡ (if t == tid then none else find_tx entries t)
find_tx-erase entries tid t o =
    ap value_of (find-erase tx_key entries (tid, 0) (t, 0) o) ∙ split (t == tid)
  where
    split :
        (b : Bool)
        → value_of (if b && 0 == 0 then none else find_key tx_key entries (t, 0))
          ≡ (if b then none else find_tx entries t)
    split true = refl
    split false = refl

-- What a transaction that leaves the pool leaves behind.
pub record IsRemoved (p q : MemoryPool) (tid : ℕ) (own : PoolTransaction) : Type 0 where
  pub others : (t : ℕ) → find_tx q.tx t ≡ (if t == tid then none else find_tx p.tx t)
  pub images : (k : ℕ) → q.ki_tx k ≡ (if has_image own.tx.inputs k then none else p.ki_tx k)
  pub size : p.total_size ≡ length own.binary_tx + q.total_size
  pub count : length p.tx ≡ 1 + length q.tx

remove_from_pool_run :
    (p : MemoryPool) (tid : ℕ) (own : PoolTransaction)
    → find_tx p.tx tid ≡ some own
    → (erase_images own.tx.inputs p.ki_tx).0 ≡ true
    → has_fee p.fee_tx (fee_per_byte own) tid ≡ true
    → remove_from_pool p tid
      ≡ some (record p {
        tx = erase_key tx_key p.tx (tid, 0);
        ki_tx = (erase_images own.tx.inputs p.ki_tx).1;
        fee_tx = erase_key fee_key p.fee_tx (fee_per_byte own, tid);
        total_size = p.total_size - length own.binary_tx;
      })
unfolding remove_from_pool
remove_from_pool_run p tid own found images fee = grind (arith, found, images, fee)

value_of-some :
    (m : Option (ℕ × PoolTransaction)) (own : PoolTransaction)
    → value_of m ≡ some own
    → (entry : ℕ × PoolTransaction) × (m ≡ some entry) × (entry.1 ≡ own)
value_of-some none own h = cc
value_of-some (some entry) own h = (entry, refl, some_eq h)

count_of : (entries : PoolTransMap) → length entries ≡ sum_of tx_key (λ e. 1) entries
count_of [] = refl
count_of (e ∷ entries) = omega (arith, count_of entries)

-- What an erasing looks up: it is not what was erased, and was there before.
kept_eq {ℓ} :
    {A : Type ℓ} (b : Bool) (m : Option A) {a : A}
    → (if b then none else m) ≡ some a
    → (b ≡ false) × (m ≡ some a)
kept_eq true m h = cc
kept_eq false m h = (refl, h)

has_fee-erase :
    (fees : List (ℕ × ℕ)) (fee tid f t : ℕ)
    → IsOrdered fee_key fees
    → has_fee (erase_key fee_key fees (fee, tid)) f t
      ≡ (if f == fee && t == tid then false else has_fee fees f t)
has_fee-erase fees fee tid f t o =
    ap is_some (find-erase fee_key fees (fee, tid) (f, t) o) ∙ split (f == fee && t == tid)
  where
    split :
        (b : Bool)
        → is_some (if b then none else find_key fee_key fees (f, t))
          ≡ (if b then false else has_fee fees f t)
    split true = refl
    split false = refl

module _ (p q : MemoryPool) (tid : ℕ) (own : PoolTransaction) (v : IsPool p)
    (found : find_tx p.tx tid ≡ some own) (gone : IsRemoved p q tid own) where
  still_there :
      (t : ℕ) (o : PoolTransaction)
      → find_tx q.tx t ≡ some o
      → ((t == tid) ≡ false) × (find_tx p.tx t ≡ some o)
  still_there t o h = kept_eq (t == tid) (find_tx p.tx t) (sym (gone.others t) ∙ h)

  stays :
      (t : ℕ) (o : PoolTransaction)
      → (t == tid) ≡ false
      → find_tx p.tx t ≡ some o
      → find_tx q.tx t ≡ some o
  stays t o other h = gone.others t ∙ rw other h

  same_tx : (t : ℕ) (o : PoolTransaction) → t ≡ tid → find_tx p.tx t ≡ some o → o ≡ own
  same_tx t o e h = some_eq (sym h ∙ ap (find_tx p.tx) e ∙ found)

  removed_image_found :
      (k t : ℕ)
      → q.ki_tx k ≡ some t
      → (o : PoolTransaction) × (find_tx q.tx t ≡ some o) × (has_image o.tx.inputs k ≡ true)
  removed_image_found k t h =
      let (free, old) = kept_eq (has_image own.tx.inputs k) (p.ki_tx k) (sym (gone.images k) ∙ h) in
      let (o, at, has) = v.image_found k t old in
      elim (Bool-cases (t == tid)) [
        | inl e ↦
            let e' = same_tx t o (ground (arith, e)) at in
            let has' = sym (ap (λ (x : PoolTransaction). has_image x.tx.inputs k) e') ∙ has in
            absurd (cc (sym free ∙ has'))
        | inr ne ↦ (o, stays t o ne at, has)
      ]

  removed_image_kept :
      (t k : ℕ) (o : PoolTransaction)
      → find_tx q.tx t ≡ some o
      → has_image o.tx.inputs k ≡ true
      → q.ki_tx k ≡ some t
  removed_image_kept t k o h has =
      let (ne, at) = still_there t o h in
      let mine = v.image_kept t k o at has in
      elim (Bool-cases (has_image own.tx.inputs k)) [
        | inl b ↦
            let e : t ≡ tid = some_eq (sym mine ∙ v.image_kept tid k own found b) in
            absurd (differ e ne)
        | inr b ↦ gone.images k ∙ rw b mine
      ]
    where
      differ : t ≡ tid → (t == tid) ≡ false → ⊥
      differ e ne = ground (arith, e, ne)

pub remove_from_pool-IsPool :
    (p : MemoryPool) (tid : ℕ) (own : PoolTransaction)
    → IsPool p
    → find_tx p.tx tid ≡ some own
    → (q : MemoryPool) × (remove_from_pool p tid ≡ some q) × IsPool q × IsRemoved p q tid own
remove_from_pool-IsPool p tid own v found =
    let q : MemoryPool = record p {
      tx = erase_key tx_key p.tx (tid, 0);
      ki_tx = (erase_images own.tx.inputs p.ki_tx).1;
      fee_tx = erase_key fee_key p.fee_tx (fee_per_byte own, tid);
      total_size = p.total_size - length own.binary_tx;
    } in
    let there =
      erase_images-there own.tx.inputs p.ki_tx (v.distinct tid own found)
        (λ k h. ap is_some (v.image_kept tid k own found h)) in
    let (entry, at, is) = value_of-some (find_key tx_key p.tx (tid, 0)) own found in
    let sizes = sum-erase tx_key size_of p.tx (tid, 0) entry at in
    let counts = sum-erase tx_key (λ (e : ℕ × PoolTransaction). 1) p.tx (tid, 0) entry at in
    let mine : size_of entry ≡ length own.binary_tx =
      ap (λ (o : PoolTransaction). length o.binary_tx) is in
    let gone : IsRemoved p q tid own = record {
      others = λ t. find_tx-erase p.tx tid t v.ordered;
      images = λ k. erase_images-put own.tx.inputs p.ki_tx k;
      size = omega (arith, v.total, sizes, mine);
      count = omega (arith, counts, count_of p.tx, count_of q.tx);
    } in
    let fees =
      λ (f : ℕ) (t : ℕ). has_fee-erase p.fee_tx (fee_per_byte own) tid f t v.fees_ordered in
    (
      q,
      remove_from_pool_run p tid own found there (v.fee_kept tid own found),
      record {
        ordered = erase-IsOrdered tx_key p.tx (tid, 0) v.ordered;
        fees_ordered = erase-IsOrdered fee_key p.fee_tx (fee_per_byte own, tid) v.fees_ordered;
        image_found = removed_image_found p q tid own v found gone;
        image_kept = removed_image_kept p q tid own v found gone;
        distinct = λ t o h. v.distinct t o (still_there p q tid own v found gone t o h).1;
        fee_found = λ f t h.
            let (differ, old) =
              kept_fee (f == fee_per_byte own && t == tid) (has_fee p.fee_tx f t)
                (sym (fees f t) ∙ h) in
            let (o, at, fee) = v.fee_found f t old in
            elim (Bool-cases (t == tid)) [
              | inl e ↦
                  let e' = same_tx p q tid own v found gone t o (ground (arith, e)) at in
                  absurd (clash f t (sym fee ∙ ap fee_per_byte e') e differ)
              | inr ne ↦ (o, stays p q tid own v found gone t o ne at, fee)
            ];
        fee_kept = λ t o h.
            let (ne, at) = still_there p q tid own v found gone t o h in
            fees (fee_per_byte o) t
            ∙ rw (other (fee_per_byte o == fee_per_byte own) (t == tid) ne) (v.fee_kept t o at);
        total = omega (arith, v.total, sizes, mine);
      },
      gone,
    )
  where
    kept_fee : (b c : Bool) → (if b then false else c) ≡ true → (b ≡ false) × (c ≡ true)
    kept_fee true c h = cc
    kept_fee false c h = (refl, h)

    clash :
        (f t : ℕ)
        → f ≡ fee_per_byte own
        → (t == tid) ≡ true
        → (f == fee_per_byte own && t == tid) ≡ false
        → ⊥
    clash f t e b h = ground (arith, e, b, h)

    other : (b c : Bool) → c ≡ false → (b && c) ≡ false
    other true c h = h
    other false c h = refl
