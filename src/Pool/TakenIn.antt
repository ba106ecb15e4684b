-- ===== src/Pool/TakenIn.antt =====
-- What `add_transaction` does with a transaction that the chain accepts.
use naza.Common.{ℕ, ◌%◌, ◌^◌, ◌+◌}
use naza.Common.{◌≡◌, refl, sym, ap, ◌∙◌, ◌≢◌, ◌⊎◌, inl, inr, arith}
use naza.Common.{Bool, true, false, ◌||◌, ◌==◌, if◌then◌else◌, Bool-cases, ==_refl}
use naza.Common.{Option, none, some, List, [], ◌∷◌, length}
use naza.Common.Options.{some_eq, Option-cases}
use naza.Transaction.{TransactionInput, coinbase_input, key_input}
use naza.State.{put, is_some}
use naza.Pool.{
  PoolTransaction, fee_per_byte, MemoryPool, find_tx, evict, loses, displace, insert_all,
}
use naza.Pool.Valid.{has_image, Distinct, IsPool}
use naza.Pool.Ordered.{same}
use naza.State.Redo.Images.{Added, has, images_in}
use naza.State.Redo.Holds.{HasUnique}
use naza.State.Built.{Images}
use naza.State.Built.Content.{add_images}
use naza.Pool.{AddTransactionResult, broadcast_all, increase_fee, loses_first, take_in}
use naza.Pool.Evicted.{Within, IsSmall, evict-IsPool}
use naza.Pool.Displaced.{displace-IsPool}
use naza.Pool.Inserted.{insert_all-IsPool}

pub add_images-has :
    (height : ℕ) (images : Images) (inputs : List TransactionInput) (k : ℕ)
    → is_some (add_images height images (images_in inputs) k)
      ≡ (has_image inputs k || is_some (images k))
add_images-has height images [] k = refl
add_images-has height images (coinbase_input block_index ∷ inputs) k =
    add_images-has height images inputs k
add_images-has height images (key_input amount output_indexes key_image ∷ inputs) k =
    add_images-has height (put images key_image (some height)) inputs k
    ∙ either (has_image inputs k) (k == key_image) (images k)
  where
    either :
        (b c : Bool) (m : Option ℕ)
        → (b || is_some (if c then some height else m)) ≡ ((c || b) || is_some m)
    either true true m = refl
    either true false m = refl
    either false true m = refl
    either false false m = refl

-- Key images that are new one by one do not stand twice.
old_image :
    (seen after : ℕ → Bool) (inputs : List TransactionInput) (k : ℕ)
    → seen k ≡ true
    → Added seen (images_in inputs) after
    → has_image inputs k ≡ false
old_image seen after [] k there added = refl
old_image seen after (coinbase_input block_index ∷ inputs) k there added =
    old_image seen after inputs k there added
old_image seen after (key_input amount output_indexes key_image ∷ inputs) k there (new, added) =
    rw (differ)
      (old_image (λ j. j == key_image || seen j) after inputs k (ground (arith, there)) added)
  where
    differ : (k == key_image) ≡ false
    differ = elim (Bool-cases (k == key_image)) [
      | inl e ↦
          let e' : k ≡ key_image = ground arith in absurd (cc (sym new ∙ ap seen (sym e') ∙ there))
      | inr ne ↦ ne
    ]

pub Added-Distinct :
    (seen after : ℕ → Bool) (inputs : List TransactionInput)
    → Added seen (images_in inputs) after
    → Distinct inputs
Added-Distinct seen after [] added = tt
Added-Distinct seen after (coinbase_input block_index ∷ inputs) added =
    Added-Distinct seen after inputs added
Added-Distinct seen after (key_input amount output_indexes key_image ∷ inputs) (new, added) = (
  old_image (λ j. j == key_image || seen j) after inputs key_image (rw (==_refl key_image) refl)
      added,
  Added-Distinct (λ j. j == key_image || seen j) after inputs added,
)

pub loses_first-some :
    (p : MemoryPool) (tid fee : ℕ) (inputs : List TransactionInput)
    → IsPool p
    → (lost : Bool) × (loses_first p tid fee inputs ≡ some lost)
unfolding loses_first
loses_first-some p tid fee [] v = (false, refl)
loses_first-some p tid fee (coinbase_input block_index ∷ inputs) v =
    loses_first-some p tid fee inputs v
loses_first-some p tid fee (key_input amount output_indexes key_image ∷ inputs) v =
    elim (Option-cases (p.ki_tx key_image)) [
      | inl free ↦
          let (lost, run) = loses_first-some p tid fee inputs v in (lost, grind (arith, free, run))
      | inr (other_tid, there) ↦
          let (o, found, mine) = v.image_found key_image other_tid there in
          (loses tid fee other_tid o, grind (arith, there, found))
    ]

pub counted-IsPool : (p : MemoryPool) (n : ℕ) → IsPool p → IsPool (record p { version = n })
counted-IsPool p n v = record {
  ordered = v.ordered;
  fees_ordered = v.fees_ordered;
  image_found = v.image_found;
  image_kept = v.image_kept;
  distinct = v.distinct;
  fee_found = v.fee_found;
  fee_kept = v.fee_kept;
  total = v.total;
}

-- What is in the pool afterwards is the new transaction or was there.
abbrev pub OneMore : MemoryPool → MemoryPool → ℕ → PoolTransaction → Type 0
OneMore p q tid own =
    (t : ℕ) (o : PoolTransaction)
    → find_tx q.tx t ≡ some o
    → ((t ≡ tid) × (own ≡ o)) ⊎ (find_tx p.tx t ≡ some o)

-- What an accepted transaction leaves, and what a refused one does.
abbrev pub Outcome : AddTransactionResult → MemoryPool → MemoryPool → ℕ → PoolTransaction → Type 0
Outcome result p q tid own =
    ((result ≡ broadcast_all) × IsSmall q × OneMore p q tid own)
    ⊎ ((result ≢ broadcast_all) × Within p q)

abbrev pub Answered :
    Option (AddTransactionResult × MemoryPool) → MemoryPool → ℕ → PoolTransaction → Type 0
Answered m p tid own =
    (result : AddTransactionResult) × (q : MemoryPool) × (m ≡ some (result, q))
    × IsPool q
    × Outcome result p q tid own

take_in_lost :
    (p q : MemoryPool) (tid : ℕ) (own : PoolTransaction) (kis : List (ℕ × ℕ))
    → displace tid (fee_per_byte own) kis p ≡ some (true, q)
    → take_in p tid own kis ≡ some (increase_fee, q)
unfolding take_in
take_in_lost p q tid own kis h = rw h refl

take_in_run :
    (p q r e : MemoryPool) (tid : ℕ) (own : PoolTransaction) (kis : List (ℕ × ℕ))
    → displace tid (fee_per_byte own) kis p ≡ some (false, q)
    → insert_all q tid own kis ≡ some r
    → evict (length r.tx) r ≡ some e
    → take_in p tid own kis ≡ some (broadcast_all, record e { version = (e.version + 1) % 2 ^ 32 })
unfolding take_in
take_in_run p q r e tid own kis h1 h2 h3 = rw (h1, h2, h3) refl

not-Within : (p q : MemoryPool) (t : ℕ) → find_tx p.tx t ≡ none → Within p q → find_tx q.tx t ≡ none
not-Within p q t free within = elim (Option-cases (find_tx q.tx t)) [
  | inl e ↦ e
  | inr (o, h) ↦ absurd (cc (sym free ∙ within t o h))
]

pub take_in-IsPool :
    (p : MemoryPool) (tid : ℕ) (own : PoolTransaction) (kis : List (ℕ × ℕ))
    → IsPool p
    → find_tx p.tx tid ≡ none
    → HasUnique kis
    → ((k : ℕ) → has kis k ≡ has_image own.tx.inputs k)
    → Distinct own.tx.inputs
    → Answered (take_in p tid own kis) p tid own
take_in-IsPool p tid own kis v free u same d =
    let (lost, q, run, w, within, fewer, clear) = displace-IsPool tid (fee_per_byte own) kis p v in
    elim (Bool-cases lost) [
      | inl b ↦ (
        increase_fee,
        q,
        take_in_lost p q tid own kis (run ∙ ap (λ (c : Bool). some (c, q)) b),
        w,
        inr (λ e. cc e, within),
      )
      | inr b ↦
          let (r, entered, x, txs) =
            insert_all-IsPool q tid own kis w (not-Within p q tid free within) u same (clear b) d in
          let (e, shrunk, y, small, inside) = evict-IsPool (length r.tx) r x (omega arith) in
          (
            broadcast_all,
            record e { version = (e.version + 1) % 2 ^ 32 },
            take_in_run p q r e tid own kis (run ∙ ap (λ (c : Bool). some (c, q)) b) entered shrunk,
            counted-IsPool e ((e.version + 1) % 2 ^ 32) y,
            inl (refl, small, λ t o h. one_more q r txs within t o (inside t o h)),
          )
    ]
  where
    one_more :
        (q r : MemoryPool)
        → ((t : ℕ) → find_tx r.tx t ≡ (if t == tid then some own else find_tx q.tx t))
        → Within p q
        → OneMore p r tid own
    one_more q r txs within t o h = elim (Bool-cases (t == tid)) [
      | inl e ↦ inl (ground arith, some_eq (sym (txs t ∙ rw e refl) ∙ h))
      | inr ne ↦ inr (within t o (sym (txs t ∙ rw ne refl) ∙ h))
    ]
