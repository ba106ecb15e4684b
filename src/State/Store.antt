-- ===== src/State/Store.antt =====
-- The operations of the chain's state undo each other and keep the outputs of an amount numbered
-- without gaps.
use native.Mathlib.Decide.{ℕ_discrete}
use naza.Common.{ℕ, suc, ◌+◌, ◌-◌, ◌%◌, ◌^◌, ◌<◌}
use naza.Common.{◌≡◌, refl, sym, ap, ◌∙◌, ◌≢◌, arith}
use naza.Common.{true, false, ltb, ◌==◌, if◌then◌else◌, ==_refl}
use naza.Common.{Option, none, some}
use naza.State.{UnlockTimePublickKeyHeightSpent, BlockChainState, put, is_some}
use naza.State.{store_keyimage, delete_keyimage, push_amount_output, pop_amount_output}

-- Two states that answer every question alike.
pub record Same (s t : BlockChainState) : Type 0 where
  pub keyimages : (k : ℕ) → s.keyimages k ≡ t.keyimages k
  pub outputs : (a i : ℕ) → s.amount_outputs a i ≡ t.amount_outputs a i
  pub next : (a : ℕ) → s.next_gi_for_amount a ≡ t.next_gi_for_amount a

-- The outputs of an amount have the indices below the next one, which is a 32-bit number.
pub record IsFilled (s : BlockChainState) : Type 0 where
  pub filled : (a i : ℕ) → is_some (s.amount_outputs a i) ≡ ltb i (s.next_gi_for_amount a)
  pub word : (a : ℕ) → s.next_gi_for_amount a < 2 ^ 32

pub is_some-false {ℓ} : {A : Type ℓ} (m : Option A) → is_some m ≡ false → m ≡ none
is_some-false none h = refl
is_some-false (some a) h = cc

-- A key image that the state does not have can be stored, and is read with its height; to delete
-- it again succeeds and gives a state that answers every question as the first one did.
pub delete-store_keyimage :
    (s : BlockChainState) (key_image height : ℕ)
    → s.keyimages key_image ≡ none
    → (t : BlockChainState) × (store_keyimage s key_image height ≡ some t)
      × (t.keyimages key_image ≡ some height)
      × (u : BlockChainState) × (delete_keyimage t key_image ≡ some u)
      × Same u s
unfolding store_keyimage delete_keyimage
delete-store_keyimage s key_image height h = (
  record s { keyimages = put s.keyimages key_image (some height) },
  rw h refl,
  ground arith,
  record s { keyimages = put (put s.keyimages key_image (some height)) key_image none },
  ground arith,
  record { keyimages = λ k. ground arith; outputs = λ a i. refl; next = λ a. refl },
)

pub put_eq {ℓ} : {A : Type ℓ} (f : ℕ → A) (k : ℕ) (v : A) (x : ℕ) → x ≡ k → put f k v x ≡ v
put_eq f k v x h = ap (λ b. if b then v else f x) (eq_true h)
  where
    eq_true : x ≡ k → (x == k) ≡ true
    eq_true h = ground arith

pub put_ne {ℓ} : {A : Type ℓ} (f : ℕ → A) (k : ℕ) (v : A) (x : ℕ) → x ≢ k → put f k v x ≡ f x
put_ne f k v x h = ap (λ b. if b then v else f x) (eq_false h)
  where
    eq_false : x ≢ k → (x == k) ≡ false
    eq_false h = ground arith

pub pop_amount_output-last :
    (t : BlockChainState) (amount gi unlock_time pk height : ℕ)
    → t.next_gi_for_amount amount ≡ suc gi
    → t.amount_outputs amount gi
      ≡ some (record { unlock_time = unlock_time; public_key = pk; height = height; spent = false })
    → pop_amount_output t amount unlock_time pk
      ≡ some (record t {
        amount_outputs = put t.amount_outputs amount (put (t.amount_outputs amount) gi none);
        next_gi_for_amount = put t.next_gi_for_amount amount gi;
      })
unfolding pop_amount_output
pop_amount_output-last t amount gi unlock_time pk height e o =
    rw (e, last gi, o, nonzero gi, ==_refl unlock_time, ==_refl pk) refl
  where
    nonzero : (n : ℕ) → (suc n == 0) ≡ false
    nonzero n = ground arith

    last : (n : ℕ) → suc n - 1 ≡ n
    last n = omega arith

-- The maps after a push.
pushed-IsFilled :
    (s : BlockChainState) (amount : ℕ) (unp : UnlockTimePublickKeyHeightSpent)
    → IsFilled s
    → s.next_gi_for_amount amount + 1 < 2 ^ 32
    → let gi = s.next_gi_for_amount amount in
      IsFilled (record s {
        amount_outputs = put s.amount_outputs amount (put (s.amount_outputs amount) gi (some unp));
        next_gi_for_amount = put s.next_gi_for_amount amount ((gi + 1) % 2 ^ 32);
      })
pushed-IsFilled s amount unp f room =
    let gi = s.next_gi_for_amount amount in
    let outputs = put (s.amount_outputs amount) gi (some unp) in
    let next = (gi + 1) % 2 ^ 32 in
    let here : (i : ℕ) → is_some (outputs i) ≡ ltb i next = λ i. elim (ℕ_discrete i gi) [
      | yes p ↦ rw (put_eq (s.amount_outputs amount) gi (some unp) i p) (ground arith)
      | no p ↦
          rw (put_ne (s.amount_outputs amount) gi (some unp) i p) (f.filled amount i ∙ ground arith)
    ] in
    record {
      filled = λ a i. elim (ℕ_discrete a amount) [
        | yes p ↦
            rw
              (
                put_eq s.amount_outputs amount outputs a p,
                put_eq s.next_gi_for_amount amount next a p,
              )
              (here i)
        | no p ↦
            rw
              (
                put_ne s.amount_outputs amount outputs a p,
                put_ne s.next_gi_for_amount amount next a p,
              )
              (f.filled a i)
      ];
      word = λ a. ground (arith, f.word a);
    }

pub put-put {ℓ} :
    {A : Type ℓ} (f : ℕ → A) (k : ℕ) (v w : A) (x : ℕ) → f k ≡ w → put (put f k v) k w x ≡ f x
put-put f k v w x h = elim (ℕ_discrete x k) [
  | yes p ↦ put_eq (put f k v) k w x p ∙ sym (ap f p ∙ h)
  | no p ↦ put_ne (put f k v) k w x p ∙ put_ne f k v x p
]

-- In a state where every amount's outputs have exactly the 32-bit indices below the next one, an
-- output of an amount with an index to spare can be pushed: it gets the next index and is read
-- there, the new state is such a state too, and to pop the output again succeeds and gives a state
-- that answers every question as the first one did.
pub pop-push_amount_output :
    (s : BlockChainState) (amount unlock_time height pk : ℕ)
    → IsFilled s
    → s.next_gi_for_amount amount + 1 < 2 ^ 32
    → (t : BlockChainState) × (push_amount_output s amount unlock_time height pk
        ≡ some (t, s.next_gi_for_amount amount))
      × (t.amount_outputs amount (s.next_gi_for_amount amount)
          ≡ some (record {
            unlock_time = unlock_time;
            public_key = pk;
            height = height;
            spent = false;
          }))
      × IsFilled t
      × (u : BlockChainState) × (pop_amount_output t amount unlock_time pk ≡ some u)
      × Same u s
unfolding push_amount_output pop_amount_output
pop-push_amount_output s amount unlock_time height pk filled room =
    let gi = s.next_gi_for_amount amount in
    let unp : UnlockTimePublickKeyHeightSpent = record {
      unlock_time = unlock_time;
      public_key = pk;
      height = height;
      spent = false;
    } in
    let free : s.amount_outputs amount gi ≡ none =
      is_some-false (s.amount_outputs amount gi) (filled.filled amount gi ∙ ground arith) in
    let t : BlockChainState = record s {
      amount_outputs = put s.amount_outputs amount (put (s.amount_outputs amount) gi (some unp));
      next_gi_for_amount = put s.next_gi_for_amount amount ((gi + 1) % 2 ^ 32);
    } in
    let u : BlockChainState = record t {
      amount_outputs = put t.amount_outputs amount (put (t.amount_outputs amount) gi none);
      next_gi_for_amount = put t.next_gi_for_amount amount gi;
    } in
    let here : (i : ℕ) → put (t.amount_outputs amount) gi none i ≡ s.amount_outputs amount i = λ i.
      ap (λ (f : ℕ → Option UnlockTimePublickKeyHeightSpent). put f gi none i)
        (put_eq s.amount_outputs amount (put (s.amount_outputs amount) gi (some unp)) amount refl)
      ∙ put-put (s.amount_outputs amount) gi (some unp) none i free in
    let popped : (a i : ℕ) → u.amount_outputs a i ≡ s.amount_outputs a i = λ a i.
      elim (ℕ_discrete a amount) [
        | yes p ↦
            ap (λ (f : ℕ → Option UnlockTimePublickKeyHeightSpent). f i)
              (put_eq t.amount_outputs amount (put (t.amount_outputs amount) gi none) a p)
            ∙ here i
            ∙ ap (λ (b : ℕ). s.amount_outputs b i) (sym p)
        | no p ↦
            ap (λ (f : ℕ → Option UnlockTimePublickKeyHeightSpent). f i)
              (put_ne t.amount_outputs amount (put (t.amount_outputs amount) gi none) a p
                ∙ put_ne s.amount_outputs amount (put (s.amount_outputs amount) gi (some unp)) a p)
      ] in
    (
      t,
      rw free refl,
      ground arith,
      pushed-IsFilled s amount unp filled room,
      u,
      pop_amount_output-last t amount gi unlock_time pk height (ground arith) (ground arith),
      record {
        keyimages = λ k. refl;
        outputs = λ a i. popped a i;
        next = λ a. put-put s.next_gi_for_amount amount ((gi + 1) % 2 ^ 32) gi a refl;
      },
    )
