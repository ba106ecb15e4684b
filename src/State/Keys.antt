-- ===== src/State/Keys.antt =====
-- The map of a delta's outputs: its keys stay in order, and a pushed output can be read back.
use naza.Common.{ℕ, suc, ◌+◌, ◌-◌, ◌%◌, ◌^◌, ◌<◌}
use naza.Common.{◌≡◌, refl, ap, ◌∙◌, inl, inr, arith}
use naza.Common.{false, ltb, ◌==◌, Bool-cases}
use naza.Common.{some, List, [], ◌∷◌, ◌++◌}
use naza.Common.{length, length-append, get_elem?}
use naza.State.Delta.{DeltaState, push_at, outputs_of, next_global_index_for_amount}
use naza.State.{IBlockChainState}
use naza.State.Delta.{push_amount_output, read_amount_output}

-- The keys of a `std::map` ascend.
abbrev pub Above : ℕ → List (ℕ × List (ℕ × ℕ)) → Type 0
Above b [] = Unit
Above b ((a, outputs) ∷ entries) = (b < a) × Above b entries

abbrev pub IsMap : List (ℕ × List (ℕ × ℕ)) → Type 0
IsMap [] = Unit
IsMap ((a, outputs) ∷ entries) = Above a entries × IsMap entries

Above-mono :
    (b c : ℕ) (entries : List (ℕ × List (ℕ × ℕ))) → b < c → Above c entries → Above b entries
Above-mono b c [] h k = tt
Above-mono b c ((a, outputs) ∷ entries) h k = (omega arith, Above-mono b c entries h k.1)

push_at-Above :
    (b : ℕ) (entries : List (ℕ × List (ℕ × ℕ))) (amount : ℕ) (output : ℕ × ℕ)
    → b < amount
    → Above b entries
    → Above b (push_at entries amount output)
push_at-Above b [] amount output h k = (h, tt)
push_at-Above b ((a, outputs) ∷ entries) amount output h k = elim (Bool-cases (amount == a)) [
  | inl e ↦ rw e k
  | inr ne ↦ rw ne (elim (Bool-cases (ltb amount a)) [
    | inl lt ↦ rw lt (h, k)
    | inr ge ↦ rw ge (k.0, push_at-Above b entries amount output h k.1)
  ])
]

pub push_at-IsMap :
    (entries : List (ℕ × List (ℕ × ℕ))) (amount : ℕ) (output : ℕ × ℕ)
    → IsMap entries
    → IsMap (push_at entries amount output)
push_at-IsMap [] amount output h = (tt, tt)
push_at-IsMap ((b, outputs) ∷ entries) amount output h = elim (Bool-cases (amount == b)) [
  | inl e ↦ rw e h
  | inr ne ↦ rw ne (elim (Bool-cases (ltb amount b)) [
    | inl lt ↦ rw lt ((ground arith, Above-mono amount b entries (ground arith) h.0), h)
    | inr ge ↦ rw ge (
      push_at-Above b entries amount output (ground arith) h.0,
      push_at-IsMap entries amount output h.1,
    )
  ])
]

pub outputs_of-none :
    (b : ℕ) (entries : List (ℕ × List (ℕ × ℕ))) → Above b entries → outputs_of entries b ≡ []
outputs_of-none b [] h = refl
outputs_of-none b ((a, outputs) ∷ entries) h = ground (arith, outputs_of-none b entries)

pub outputs_of-push_at :
    (entries : List (ℕ × List (ℕ × ℕ))) (amount : ℕ) (output : ℕ × ℕ)
    → IsMap entries
    → outputs_of (push_at entries amount output) amount ≡ outputs_of entries amount ++ output ∷ []
outputs_of-push_at [] amount output h = ground arith
outputs_of-push_at ((b, outputs) ∷ entries) amount output h = elim (Bool-cases (amount == b)) [
  | inl e ↦ rw e (ground arith)
  | inr ne ↦ rw ne (elim (Bool-cases (ltb amount b)) [
    | inl lt ↦ rw lt (
        ground
          (arith, outputs_of-none amount entries (Above-mono amount b entries (ground arith) h.0)))
    | inr ge ↦ rw ge (ground (arith, outputs_of-push_at entries amount output h.1))
  ])
]

pub get_elem?-last : (xs : List (ℕ × ℕ)) (x : ℕ × ℕ) → get_elem? (xs ++ x ∷ []) (length xs) ≡ some x
get_elem?-last [] x = refl
get_elem?-last (y ∷ xs) x = get_elem?-last xs x

-- An output that is pushed to a delta whose amounts ascend gets the next global index of its
-- amount, as long as that is a 32-bit number, and is read back under it, unspent and with the
-- height of the delta.
pub read-push_amount_output :
    (d : DeltaState) (parent : IBlockChainState) (amount unlock_time pk : ℕ)
    → IsMap d.global_amounts
    → length (outputs_of d.global_amounts amount) + parent.next_global_index_for_amount amount
      < 2 ^ 32
    → let (e, gi) = push_amount_output d parent amount unlock_time pk in
      (gi ≡ next_global_index_for_amount d parent amount)
      × (read_amount_output e parent amount gi
          ≡ some (record {
            unlock_time = unlock_time;
            public_key = pk;
            height = d.block_height;
            spent = false;
          }))
unfolding push_amount_output next_global_index_for_amount read_amount_output
read-push_amount_output d parent amount unlock_time pk ordered room =
    let pg = parent.next_global_index_for_amount amount in
    let before = outputs_of d.global_amounts amount in
    let after = outputs_of-push_at d.global_amounts amount (unlock_time, pk) ordered in
    let grown : length (outputs_of (push_at d.global_amounts amount (unlock_time, pk)) amount)
        ≡ suc (length before) =
      ap length after ∙ length-append before ((unlock_time, pk) ∷ []) ∙ omega arith in
    let index : (pg
            + length (outputs_of (push_at d.global_amounts amount (unlock_time, pk)) amount)
            + 2 ^ 32
            - 1)
          % 2 ^ 32
        ≡ length before + pg =
      omega arith in
    let own : ltb (length before + pg) pg ≡ false = ground arith in
    let offset : length before + pg - pg ≡ length before = omega arith in
    (omega arith, rw (index, own, offset, after, get_elem?-last before (unlock_time, pk)) refl)
