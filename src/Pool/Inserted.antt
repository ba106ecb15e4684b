-- ===== src/Pool/Inserted.antt =====
-- A new transaction enters all the indices of the memory pool.
use naza.Common.{ℕ, ◌+◌}
use naza.Common.{◌≡◌, refl, sym, ap, ◌∙◌, ◌⊎◌, inl, inr, arith}
use naza.Common.{Bool, true, false, ◌&&◌, ◌==◌, if◌then◌else◌, Bool-cases, ==_refl}
use naza.Common.{Option, none, some, List, [], ◌∷◌, length}
use naza.Common.Options.{some_eq}
use mathlib.Core.Path.{subst}
use naza.State.{put, is_some}
use naza.State.Store.{is_some-false}
use naza.Pool.{
  PoolTransaction, fee_per_byte, PoolTransMap, MemoryPool, tx_key, fee_key, find_tx, value_of,
  insert_images, insert_all,
}
use naza.Pool.Valid.{has_image, Distinct, has_fee, size_of, IsPool}
use naza.Pool.Ordered.{same, find_key, insert_key}
use naza.State.Redo.Images.{has}
use naza.State.Redo.Holds.{HasUnique}
use naza.Pool.Ordered.{insert-IsOrdered, find-insert, sum-insert}

insert_images-put :
    (tid : ℕ) (kis : List (ℕ × ℕ)) (ki : ℕ → Option ℕ)
    → HasUnique kis
    → ((k : ℕ) → has kis k ≡ true → ki k ≡ none)
    → ((insert_images tid kis ki).0 ≡ true)
      × ((k : ℕ) → (insert_images tid kis ki).1 k ≡ (if has kis k then some tid else ki k))
unfolding insert_images
insert_images-put tid [] ki u free = (refl, λ k. refl)
insert_images-put tid ((image, height) ∷ rest) ki u free =
    let here : ki image ≡ none = free image (rw (==_refl image) refl) in
    let (ok, there) =
      insert_images-put tid rest (put ki image (some tid)) u.1 (λ k h. later k h (free k)) in
    rw here (ok, λ k. there k ∙ either (has rest k) (k == image) (ki k) ∙ joined k)
  where
    either :
        (b c : Bool) (m : Option ℕ)
        → (if b then some tid else if c then some tid else m)
          ≡ (if c then some tid else if b then some tid else m)
    either true true m = refl
    either true false m = refl
    either false true m = refl
    either false false m = refl

    joined :
        (k : ℕ)
        → (if k == image then some tid else if has rest k then some tid else ki k)
          ≡ (if has ((image, height) ∷ rest) k then some tid else ki k)
    joined k = elim (Bool-cases (k == image)) [ inl e ↦ rw e refl | inr ne ↦ rw ne refl ]

    later :
        (k : ℕ)
        → has rest k ≡ true
        → (has ((image, height) ∷ rest) k ≡ true → ki k ≡ none)
        → put ki image (some tid) k ≡ none
    later k h free = elim (Bool-cases (k == image)) [
      | inl e ↦
          let e' : k ≡ image = ground arith in
          let h' : false ≡ true = sym (ap is_some u.0) ∙ sym (ap (has rest) e') ∙ h in
          absurd (cc h')
      | inr ne ↦ rw ne (free (rw ne h))
    ]

no_entry : (m : Option (ℕ × PoolTransaction)) → value_of m ≡ none → m ≡ none
no_entry none h = refl
no_entry (some e) h = cc

find_tx-insert :
    (entries : PoolTransMap) (tid t : ℕ) (own : PoolTransaction)
    → find_tx entries tid ≡ none
    → find_tx (insert_key tx_key entries (tid, own)) t
      ≡ (if t == tid then some own else find_tx entries t)
find_tx-insert entries tid t own free =
    ap value_of (
      find-insert tx_key entries (tid, own) (t, 0)
        (no_entry (find_key tx_key entries (tid, 0)) free))
    ∙ split (t == tid)
  where
    split :
        (b : Bool)
        → value_of (if b && 0 == 0 then some (tid, own) else find_key tx_key entries (t, 0))
          ≡ (if b then some own else find_tx entries t)
    split true = refl
    split false = refl

has_fee-insert :
    (fees : List (ℕ × ℕ)) (fee tid f t : ℕ)
    → has_fee fees fee tid ≡ false
    → has_fee (insert_key fee_key fees (fee, tid)) f t
      ≡ (if f == fee && t == tid then true else has_fee fees f t)
has_fee-insert fees fee tid f t free =
    ap is_some (find-insert fee_key fees (fee, tid) (f, t) (is_some-false _ free))
    ∙ split (f == fee && t == tid)
  where
    split :
        (b : Bool)
        → is_some (if b then some (fee, tid) else find_key fee_key fees (f, t))
          ≡ (if b then true else has_fee fees f t)
    split true = refl
    split false = refl

insert_all_run :
    (p : MemoryPool) (tid : ℕ) (own : PoolTransaction) (kis : List (ℕ × ℕ))
    → (insert_images tid kis p.ki_tx).0 ≡ true
    → find_tx p.tx tid ≡ none
    → has_fee p.fee_tx (fee_per_byte own) tid ≡ false
    → insert_all p tid own kis
      ≡ some (record p {
        tx = insert_key tx_key p.tx (tid, own);
        ki_tx = (insert_images tid kis p.ki_tx).1;
        fee_tx = insert_key fee_key p.fee_tx (fee_per_byte own, tid);
        total_size = p.total_size + length own.binary_tx;
      })
unfolding insert_all
insert_all_run p tid own kis images free fee = grind (arith, images, free, fee)

module _ (p q : MemoryPool) (tid : ℕ) (own : PoolTransaction) (v : IsPool p)
    (free : find_tx p.tx tid ≡ none)
    (txs : (t : ℕ) → find_tx q.tx t ≡ (if t == tid then some own else find_tx p.tx t))
    (images : (k : ℕ) → q.ki_tx k ≡ (if has_image own.tx.inputs k then some tid else p.ki_tx k))
    (clear : (k : ℕ) → has_image own.tx.inputs k ≡ true → p.ki_tx k ≡ none) where
  -- What was in the pool is another transaction.
  old_tx :
      (t : ℕ) (o : PoolTransaction)
      → find_tx p.tx t ≡ some o
      → ((t == tid) ≡ false) × (find_tx q.tx t ≡ some o)
  old_tx t o h = elim (Bool-cases (t == tid)) [
    | inl e ↦
        let e' : t ≡ tid = ground arith in absurd (cc (sym free ∙ ap (find_tx p.tx) (sym e') ∙ h))
    | inr ne ↦ (ne, txs t ∙ rw ne h)
  ]

  -- What is in the pool is the new transaction or was there.
  new_tx :
      (t : ℕ) (o : PoolTransaction)
      → find_tx q.tx t ≡ some o
      → ((t ≡ tid) × (own ≡ o)) ⊎ (((t == tid) ≡ false) × (find_tx p.tx t ≡ some o))
  new_tx t o h = elim (Bool-cases (t == tid)) [
    | inl e ↦ inl (
      ground arith,
      some_eq (sym (ap (λ (b : Bool). if b then some own else find_tx p.tx t) e) ∙ sym (txs t) ∙ h),
    )
    | inr ne ↦
        inr
          (ne, sym (ap (λ (b : Bool). if b then some own else find_tx p.tx t) ne) ∙ sym (txs t) ∙ h)
  ]

  own_tx : find_tx q.tx tid ≡ some own
  own_tx = txs tid ∙ rw (==_refl tid) refl

  inserted_image_found :
      (k t : ℕ)
      → q.ki_tx k ≡ some t
      → (o : PoolTransaction) × (find_tx q.tx t ≡ some o) × (has_image o.tx.inputs k ≡ true)
  inserted_image_found k t h = elim (Bool-cases (has_image own.tx.inputs k)) [
    | inl b ↦
        let e : tid ≡ t =
          some_eq
            (sym (ap (λ (c : Bool). if c then some tid else p.ki_tx k) b) ∙ sym (images k) ∙ h) in
        (own, ap (find_tx q.tx) (sym e) ∙ own_tx, b)
    | inr b ↦
        let old =
          sym (ap (λ (c : Bool). if c then some tid else p.ki_tx k) b) ∙ sym (images k) ∙ h in
        let (o, at, has) = v.image_found k t old in (o, (old_tx t o at).1, has)
  ]

  inserted_image_kept :
      (t k : ℕ) (o : PoolTransaction)
      → find_tx q.tx t ≡ some o
      → has_image o.tx.inputs k ≡ true
      → q.ki_tx k ≡ some t
  inserted_image_kept t k o h has = elim (new_tx t o h) [
    | inl (e, is) ↦
        let has' : has_image own.tx.inputs k ≡ true =
          ap (λ (x : PoolTransaction). has_image x.tx.inputs k) is ∙ has in
        images k
        ∙ ap (λ (c : Bool). if c then some tid else p.ki_tx k) has'
        ∙ ap (λ (x : ℕ). some x) (sym e)
    | inr (ne, at) ↦
        let mine = v.image_kept t k o at has in
        elim (Bool-cases (has_image own.tx.inputs k)) [
          | inl b ↦ absurd (cc (sym (clear k b) ∙ mine))
          | inr b ↦ images k ∙ ap (λ (c : Bool). if c then some tid else p.ki_tx k) b ∙ mine
        ]
  ]

pub insert_all-IsPool :
    (p : MemoryPool) (tid : ℕ) (own : PoolTransaction) (kis : List (ℕ × ℕ))
    → IsPool p
    → find_tx p.tx tid ≡ none
    → HasUnique kis
    → ((k : ℕ) → has kis k ≡ has_image own.tx.inputs k)
    → ((k : ℕ) → has kis k ≡ true → p.ki_tx k ≡ none)
    → Distinct own.tx.inputs
    → (q : MemoryPool) × (insert_all p tid own kis ≡ some q)
      × IsPool q
      × ((t : ℕ) → find_tx q.tx t ≡ (if t == tid then some own else find_tx p.tx t))
insert_all-IsPool p tid own kis v free u same clear d =
    let (ok, put_images) = insert_images-put tid kis p.ki_tx u clear in
    let fee = fee_per_byte own in
    let unpaid : has_fee p.fee_tx fee tid ≡ false = elim (Bool-cases (has_fee p.fee_tx fee tid)) [
      | inl b ↦ let (o, at, is) = v.fee_found fee tid b in absurd (cc (sym free ∙ at))
      | inr b ↦ b
    ] in
    let q : MemoryPool = record p {
      tx = insert_key tx_key p.tx (tid, own);
      ki_tx = (insert_images tid kis p.ki_tx).1;
      fee_tx = insert_key fee_key p.fee_tx (fee, tid);
      total_size = p.total_size + length own.binary_tx;
    } in
    let txs = λ (t : ℕ). find_tx-insert p.tx tid t own free in
    let images =
      λ (k : ℕ). put_images k ∙ ap (λ (b : Bool). if b then some tid else p.ki_tx k) (same k) in
    let clear' = λ (k : ℕ) (h : has_image own.tx.inputs k ≡ true). clear k (same k ∙ h) in
    let fees = λ (f : ℕ) (t : ℕ). has_fee-insert p.fee_tx fee tid f t unpaid in
    let no_key = no_entry (find_key tx_key p.tx (tid, 0)) free in
    (
      q,
      insert_all_run p tid own kis ok free unpaid,
      record {
        ordered = insert-IsOrdered tx_key p.tx (tid, own) v.ordered no_key;
        fees_ordered =
            insert-IsOrdered fee_key p.fee_tx (fee, tid) v.fees_ordered (is_some-false _ unpaid);
        image_found = inserted_image_found p q tid own v free txs images clear';
        image_kept = inserted_image_kept p q tid own v free txs images clear';
        distinct = λ t o h. elim (new_tx p q tid own v free txs images clear' t o h) [
          | inl (e, is) ↦ subst (λ (x : PoolTransaction). Distinct x.tx.inputs) is d
          | inr (ne, at) ↦ v.distinct t o at
        ];
        fee_found = λ f t h. elim (Bool-cases (f == fee && t == tid)) [
          | inl b ↦
              let (e, e') = halves f t b in
              (own, ap (find_tx q.tx) e' ∙ own_tx p q tid own v free txs images clear', sym e)
          | inr b ↦
              let (o, at, is) = v.fee_found f t (
                sym (ap (λ (c : Bool). if c then true else has_fee p.fee_tx f t) b)
                ∙ sym (fees f t)
                ∙ h) in
              (o, (old_tx p q tid own v free txs images clear' t o at).1, is)
        ];
        fee_kept = λ t o h. elim (new_tx p q tid own v free txs images clear' t o h) [
          | inl (e, is) ↦
              fees (fee_per_byte o) t
              ∙ whole (fee_per_byte o) t (has_fee p.fee_tx (fee_per_byte o) t)
                  (sym (ap fee_per_byte is)) e
          | inr (ne, at) ↦
              fees (fee_per_byte o) t
              ∙ rest (fee_per_byte o == fee && t == tid) (has_fee p.fee_tx (fee_per_byte o) t)
                  (v.fee_kept t o at)
        ];
        total = omega (arith, v.total, sum-insert tx_key size_of p.tx (tid, own));
      },
      txs,
    )
  where
    halves :
        (f t : ℕ) → (f == fee_per_byte own && t == tid) ≡ true → (f ≡ fee_per_byte own) × (t ≡ tid)
    halves f t b = (ground (arith, b), ground (arith, b))

    whole :
        (f t : ℕ) (c : Bool)
        → f ≡ fee_per_byte own
        → t ≡ tid
        → (if f == fee_per_byte own && t == tid then true else c) ≡ true
    whole f t c e e' = ground (arith, e, e')

    rest : (b c : Bool) → c ≡ true → (if b then true else c) ≡ true
    rest true c h = refl
    rest false c h = h
