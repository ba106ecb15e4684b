-- ===== src/State/Built/Step.antt =====
-- One step of a block, and what takes it back.
use native.Mathlib.Decide.{ℕ_discrete}
use naza.Common.{ℕ, suc, ◌+◌, ◌%◌, ◌^◌, ◌<◌}
use naza.Common.{◌≡◌, refl, sym, ap, ◌∙◌, ◌≢◌, arith}
use naza.Common.{Bool, true, false, ltb}
use naza.Common.{Option, none, some, [], ◌∷◌, ◌++◌}
use naza.Common.{length, length-append}
use naza.Common.Options.{some_eq}
use naza.State.{UnlockTimePublickKeyHeightSpent, BlockChainState, put, is_some}
use naza.State.{
  store_keyimage, delete_keyimage, push_amount_output, pop_amount_output, spend_output,
}
use naza.State.Store.{IsFilled, put_eq, put_ne, delete-store_keyimage, pop-push_amount_output}
use naza.State.Built.{
  Images, Outputs, Marks, or_else, mark_spent, built, add_output, add_mark, Same-eq, Room,
  built-IsFilled, cell, cell-last, cell-before, is_some-cell,
}

or_else-put :
    (f g : Images) (key_image x k : ℕ)
    → or_else (put f key_image (some x) k) (g k)
      ≡ put (λ j. or_else (f j) (g j)) key_image (some x) k
or_else-put f g key_image x k = grind arith

pub store_keyimage-built :
    (s : BlockChainState) (height : ℕ) (images : Images) (outputs : Outputs) (marks : Marks)
    (key_image x : ℕ)
    → or_else (images key_image) (s.keyimages key_image) ≡ none
    → store_keyimage (built s height images outputs marks) key_image x
      ≡ some (built s height (put images key_image (some x)) outputs marks)
unfolding store_keyimage
store_keyimage-built s height images outputs marks key_image x free = rw free (
    ap some (
      Same-eq _ _ (record {
        keyimages = λ k. sym (or_else-put images s.keyimages key_image x k);
        outputs = λ a i. refl;
        next = λ a. refl;
      })))

pub push_amount_output-built :
    (s : BlockChainState) (height : ℕ) (images : Images) (outputs : Outputs) (marks : Marks)
    (amount unlock_time pk : ℕ)
    → IsFilled s
    → Room s (add_output outputs amount (unlock_time, pk))
    → push_amount_output (built s height images outputs marks) amount unlock_time height pk
      ≡ some (
        built s height images (add_output outputs amount (unlock_time, pk)) marks,
        s.next_gi_for_amount amount + length (outputs amount),
      )
unfolding push_amount_output
push_amount_output-built s height images outputs marks amount unlock_time pk f room =
    let next = s.next_gi_for_amount amount in
    let gi = next + length (outputs amount) in
    let t = built s height images outputs marks in
    let u = built s height images (add_output outputs amount (unlock_time, pk)) marks in
    let unp : UnlockTimePublickKeyHeightSpent = record {
      unlock_time = unlock_time;
      public_key = pk;
      height = height;
      spent = false;
    } in
    let more = outputs amount ++ (unlock_time, pk) ∷ [] in
    let grown : length more ≡ suc (length (outputs amount)) =
      length-append (outputs amount) ((unlock_time, pk) ∷ []) ∙ omega arith in
    let here : add_output outputs amount (unlock_time, pk) amount ≡ more =
      put_eq outputs amount more amount refl in
    let small : gi + 1 < 2 ^ 32 = ground (arith, room amount, ap length here, grown) in
    let free : is_some (t.amount_outputs amount gi) ≡ false =
      is_some-cell height next (outputs amount) gi (marks amount gi) (s.amount_outputs amount gi)
        (f.filled amount gi)
      ∙ ground arith in
    let cells : (i : ℕ)
        → put (t.amount_outputs amount) gi (some unp) i
          ≡ cell height next more i (mark_spent (marks amount i) (s.amount_outputs amount i)) =
      λ i. elim (ℕ_discrete i gi) [
        | yes p ↦
            put_eq (t.amount_outputs amount) gi (some unp) i p
            ∙ sym (cell-last height next (outputs amount) (unlock_time, pk) i _ p)
        | no p ↦
            put_ne (t.amount_outputs amount) gi (some unp) i p
            ∙ sym (cell-before height next (outputs amount) (unlock_time, pk) i _ p)
      ] in
    rw free (
      ap (λ w. some (w, gi))
        (Same-eq _ u (record {
          keyimages = λ k. refl;
          outputs = λ a i. elim (ℕ_discrete a amount) [
            | yes p ↦
                rw
                  (
                    put_eq t.amount_outputs amount (put (t.amount_outputs amount) gi (some unp)) a
                        p,
                    put_eq outputs amount more a p,
                    p,
                  )
                  (cells i)
            | no p ↦
                rw
                  (
                    put_ne t.amount_outputs amount (put (t.amount_outputs amount) gi (some unp)) a
                        p,
                    put_ne outputs amount more a p,
                  )
                  refl
          ];
          next = λ a. elim (ℕ_discrete a amount) [
            | yes p ↦
                rw
                  (
                    put_eq t.next_gi_for_amount amount ((gi + 1) % 2 ^ 32) a p,
                    put_eq outputs amount more a p,
                    p,
                    grown,
                  )
                  (omega arith)
            | no p ↦
                rw
                  (
                    put_ne t.next_gi_for_amount amount ((gi + 1) % 2 ^ 32) a p,
                    put_ne outputs amount more a p,
                  )
                  refl
          ];
        })))

-- What deletes a stored key image and pops a pushed output again.
pub delete_keyimage-built :
    (s : BlockChainState) (height : ℕ) (images : Images) (outputs : Outputs) (marks : Marks)
    (key_image : ℕ)
    → or_else (images key_image) (s.keyimages key_image) ≡ none
    → delete_keyimage (built s height (put images key_image (some height)) outputs marks) key_image
      ≡ some (built s height images outputs marks)
delete_keyimage-built s height images outputs marks key_image free =
    let t = built s height images outputs marks in
    let (v, stored, read, u, deleted, same) = delete-store_keyimage t key_image height free in
    let e =
      some_eq
        (sym stored ∙ store_keyimage-built s height images outputs marks key_image height free) in
    ap (λ (w : BlockChainState). delete_keyimage w key_image) (sym e)
    ∙ deleted
    ∙ ap some (Same-eq u t same)

pub Room-less :
    (s : BlockChainState) (outputs : Outputs) (amount : ℕ) (output : ℕ × ℕ)
    → Room s (add_output outputs amount output)
    → Room s outputs
Room-less s outputs amount output room a = elim (ℕ_discrete a amount) [
  | yes p ↦ omega (
    arith,
    room a,
    ap length (put_eq outputs amount (outputs amount ++ output ∷ []) a p),
    length-append (outputs amount) (output ∷ []),
    ap (λ b. length (outputs b)) p,
  )
  | no p ↦
      omega (arith, room a, ap length (put_ne outputs amount (outputs amount ++ output ∷ []) a p))
]

pub pop_amount_output-built :
    (s : BlockChainState) (height : ℕ) (images : Images) (outputs : Outputs) (marks : Marks)
    (amount unlock_time pk : ℕ)
    → IsFilled s
    → Room s (add_output outputs amount (unlock_time, pk))
    → pop_amount_output
        (built s height images (add_output outputs amount (unlock_time, pk)) marks)
        amount
        unlock_time
        pk
      ≡ some (built s height images outputs marks)
pop_amount_output-built s height images outputs marks amount unlock_time pk f room =
    let t = built s height images outputs marks in
    let less = Room-less s outputs amount (unlock_time, pk) room in
    let small : t.next_gi_for_amount amount + 1 < 2 ^ 32 = ground (
      arith,
      room amount,
      ap length (put_eq outputs amount (outputs amount ++ (unlock_time, pk) ∷ []) amount refl),
      length-append (outputs amount) ((unlock_time, pk) ∷ []),
    ) in
    let (v, pushed, read, filled, u, popped, same) =
      pop-push_amount_output t amount unlock_time height pk
        (built-IsFilled s height images outputs marks f less) small in
    let e = some_eq (
      sym pushed
      ∙ push_amount_output-built s height images outputs marks amount unlock_time pk f room) in
    ap (λ (w : BlockChainState). pop_amount_output w amount unlock_time pk)
      (sym (ap (λ (r : BlockChainState × ℕ). r.0) e))
    ∙ popped
    ∙ ap some (Same-eq u t same)

spend_output-some :
    (t : BlockChainState) (amount global_index : ℕ) (b : Bool)
    (was : UnlockTimePublickKeyHeightSpent)
    → t.amount_outputs amount global_index ≡ some was
    → spend_output t amount global_index b ≡ record t {
      amount_outputs =
          put t.amount_outputs amount
            (put (t.amount_outputs amount) global_index (some (record was { spent = b })));
    }
unfolding spend_output
spend_output-some t amount global_index b was h = grind (arith, h)

-- What spends an output in one of two states that differ in it alone gives the other.
spend_output-Same :
    (t u : BlockChainState) (amount i : ℕ) (b : Bool) (was : UnlockTimePublickKeyHeightSpent)
    → t.amount_outputs amount i ≡ some was
    → u.amount_outputs amount i ≡ some (record was { spent = b })
    → ((a j : ℕ) → (a ≡ amount → j ≢ i) → t.amount_outputs a j ≡ u.amount_outputs a j)
    → ((k : ℕ) → t.keyimages k ≡ u.keyimages k)
    → ((a : ℕ) → t.next_gi_for_amount a ≡ u.next_gi_for_amount a)
    → spend_output t amount i b ≡ u
spend_output-Same t u amount i b was old now others images next =
    let changed = put (t.amount_outputs amount) i (some (record was { spent = b })) in
    spend_output-some t amount i b was old
    ∙ Same-eq _ u (record {
      keyimages = images;
      outputs = λ a j. elim (ℕ_discrete a amount) [
        | yes p ↦
            ap (λ (f : ℕ → Option UnlockTimePublickKeyHeightSpent). f j)
              (put_eq t.amount_outputs amount changed a p)
            ∙ elim (ℕ_discrete j i) [
              | yes q ↦
                  put_eq (t.amount_outputs amount) i _ j q
                  ∙ sym now
                  ∙ ap (λ (b : ℕ). u.amount_outputs b i) (sym p)
                  ∙ ap (u.amount_outputs a) (sym q)
              | no q ↦
                  put_ne (t.amount_outputs amount) i _ j q
                  ∙ ap (λ (b : ℕ). t.amount_outputs b j) (sym p)
                  ∙ others a j (λ e. q)
            ]
        | no p ↦
            ap (λ (f : ℕ → Option UnlockTimePublickKeyHeightSpent). f j)
              (put_ne t.amount_outputs amount changed a p)
            ∙ others a j (λ e. absurd (p e))
      ];
      next = next;
    })

-- The output is one of the state before and was not spent.
abbrev pub Unspent : BlockChainState → ℕ → ℕ → Type 0
Unspent s amount i =
    (i < s.next_gi_for_amount amount)
    × (unp : UnlockTimePublickKeyHeightSpent) × (s.amount_outputs amount i ≡ some unp)
    × (unp.spent ≡ false)

marked-eq :
    (marks : Marks) (amount i a j : ℕ) → a ≡ amount → j ≡ i → add_mark marks amount i a j ≡ true
marked-eq marks amount i a j p q = ground (arith, p, q)

marked-ne :
    (marks : Marks) (amount i a j : ℕ)
    → (a ≡ amount → j ≢ i)
    → add_mark marks amount i a j ≡ marks a j
marked-ne marks amount i a j h = elim (ℕ_discrete a amount) [
  | yes p ↦ ground (arith, h p)
  | no p ↦ ground (arith, p)
]

module _ (s : BlockChainState) (height : ℕ) (images : Images) (outputs : Outputs) (marks : Marks)
    (amount i : ℕ) where
  cells :
      (a j : ℕ)
      → (a ≡ amount → j ≢ i)
      → (built s height images outputs marks).amount_outputs a j
        ≡ (built s height images outputs (add_mark marks amount i)).amount_outputs a j
  cells a j differ = rw (marked-ne marks amount i a j differ) refl

  marked :
      (b : Bool) (m : Marks) (unp : UnlockTimePublickKeyHeightSpent)
      → i < s.next_gi_for_amount amount
      → s.amount_outputs amount i ≡ some unp
      → m amount i ≡ b
      → (built s height images outputs m).amount_outputs amount i ≡ mark_spent b (some unp)
  marked b m unp below old e =
      let lt : ltb i (s.next_gi_for_amount amount) ≡ true = ground (arith, below) in
      rw (lt, e, old) refl

  -- What spends an output of the state before, and what frees it again.
  pub spend_output-built :
      Unspent s amount i
      → marks amount i ≡ false
      → (spend_output (built s height images outputs marks) amount i true
          ≡ built s height images outputs (add_mark marks amount i))
        × (spend_output (built s height images outputs (add_mark marks amount i)) amount i false
            ≡ built s height images outputs marks)
  spend_output-built (below, unp, old, unspent) free =
      let t = built s height images outputs marks in
      let u = built s height images outputs (add_mark marks amount i) in
      let spent' : UnlockTimePublickKeyHeightSpent = record unp { spent = true } in
      let was = marked false marks unp below old free in
      let now =
        marked true (add_mark marks amount i) unp below old
          (marked-eq marks amount i amount i refl refl) in
      let back : unp ≡ record spent' { spent = false } =
        ap (λ (b : Bool). record unp { spent = b }) unspent in
      (
        spend_output-Same t u amount i true unp was now cells (λ k. refl) (λ a. refl),
        spend_output-Same u t amount i false spent' now (was ∙ ap some back)
            (λ a j e. sym (cells a j e)) (λ k. refl) (λ a. refl),
      )
