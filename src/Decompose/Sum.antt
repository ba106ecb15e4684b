-- ===== src/Decompose/Sum.antt =====
-- The parts of a decomposed amount add up to it.
use native.Mathlib.Decide.{dec_lt}
use native.Mathlib.Nat.{pow-suc, div-add-mod, mod-eq_of_lt}
use naza.Common.{ℕ, zero, suc, ◌+◌, ◌-◌, ◌*◌, ◌/◌, ◌%◌, ◌^◌, ◌≤◌, ◌<◌}
use naza.Common.{◌≡◌, ap, ◌∙◌, ◌⊎◌, inl, inr, arith}
use naza.Common.Options.{◌>>=◌}
use naza.Common.{true, false, leb, ◌==◌, if◌then◌else◌, Bool-cases}
use naza.Common.{some, List, [], ◌∷◌, ◌++◌}
use naza.Decompose.{
  Digits, push_nonzero, push_dust, dust_waits, join_dust, push_chunk, digit_step, digit_loop,
}
use naza.Decompose.{start_digits, finish_digits, decompose_amount}

abbrev pub sum : List ℕ → ℕ
sum [] = 0
sum (x ∷ xs) = x + sum xs

pub sum-append : (xs ys : List ℕ) → sum (xs ++ ys) ≡ sum xs + sum ys
sum-append [] ys = omega arith
sum-append (x ∷ xs) ys = omega (arith, sum-append xs ys)

sum-push_nonzero : (out : List ℕ) (x : ℕ) → sum (push_nonzero out x) ≡ sum out + x
unfolding push_nonzero
sum-push_nonzero out x = ground (arith, sum-append out (x ∷ []))

sum-push_dust : (out : List ℕ) (dust : ℕ) → sum (push_dust out dust) ≡ sum out + dust
sum-push_dust out dust =
    unfold push_dust in
    omega (
      arith,
      sum-push_nonzero out (dust % 1000),
      sum-push_nonzero (push_nonzero out (dust % 1000)) (dust - dust % 1000),
    )

-- What the loop has not pushed yet.
abbrev waiting : Digits → ℕ
waiting s = if s.is_dust_handled then 0 else s.dust

-- The loop's invariant: nothing is lost, and once the dust is pushed no digit joins it.
record Keeps (total threshold : ℕ) (s : Digits) : Type 0 where
  whole : sum s.decomposed_amounts + waiting s + s.amount * s.order ≡ total
  dust_pushed : s.is_dust_handled ≡ true → s.dust ≤ sum s.decomposed_amounts
  beyond : s.is_dust_handled ≡ true → 0 < s.amount → threshold < s.dust + s.order
  order_pos : 0 < s.amount → 0 < s.order

split10 : (a o : ℕ) → a * o ≡ a % 10 * o + a / 10 * (o * 10)
split10 a o = omega (arith, ap (λ (t : ℕ). t * o) (div-add-mod a 10))

-- The digit and the next order do not wrap.
chunk_fits : (a o t : ℕ) → a * o ≤ t → t < 2 ^ 64 → a % 10 * o % 2 ^ 64 ≡ a % 10 * o
chunk_fits a o t h ht = mod-eq_of_lt (omega (arith, split10 a o))

order_fits : (a o t : ℕ) → a * o ≤ t → t < 2 ^ 64 → 0 < a / 10 → o * 10 % 2 ^ 64 ≡ o * 10
order_fits a o t h ht more = mod-eq_of_lt (grind (arith, split10 a o))

-- The next order, multiplied by what is left.
next_product : (a o t : ℕ) → a * o ≤ t → t < 2 ^ 64 → a / 10 * (o * 10 % 2 ^ 64) ≡ a / 10 * (o * 10)
next_product a o t h ht = elim (dec_lt 0 (a / 10)) [
  | yes p ↦ ap (λ (x : ℕ). a / 10 * x) (order_fits a o t h ht p)
  | no p ↦ grind (arith, none_left a p)
]
  where
    none_left : (a : ℕ) → ¬ (0 < a / 10) → a / 10 ≡ 0
    none_left a p = omega arith

-- A digit's value is zero or at least the order, and below the next order.
no_digit : (a o : ℕ) → a % 10 * o < o → a % 10 * o ≡ 0
no_digit a o h = no_times (a % 10) h
  where
    no_times : (d : ℕ) → d * o < o → d * o ≡ 0
    no_times zero h = omega arith
    no_times (suc d) h = absurd (omega arith)

digit_below : (a o : ℕ) → a % 10 * o ≤ o * 10
digit_below a o = grind arith

-- The dust waits unless it was pushed or is zero.
dust_waits_cases :
    (s : Digits)
    → ((dust_waits s ≡ true) × (s.is_dust_handled ≡ false))
      ⊎ (((dust_waits s ≡ false) × (s.is_dust_handled ≡ true))
          ⊎ ((dust_waits s ≡ false) × (s.is_dust_handled ≡ false) × (s.dust ≡ 0)))
unfolding dust_waits
dust_waits_cases s = ground arith

module _ (total threshold : ℕ) (s : Digits) (ht : total < 2 ^ 64) (pos : 0 < s.amount)
    (k : Keeps total threshold s) where
  chunk : ℕ
  chunk = s.amount % 10 * s.order

  within : s.amount * s.order ≤ total
  within = omega (arith, k.whole)

  exact_chunk : s.amount % 10 * s.order % 2 ^ 64 ≡ s.amount % 10 * s.order
  exact_chunk = chunk_fits s.amount s.order total within ht

  left : s.amount / 10 * (s.order * 10 % 2 ^ 64) ≡ s.amount / 10 * (s.order * 10)
  left = next_product s.amount s.order total within ht

  dust_word : (s.dust + s.amount % 10 * s.order) % 2 ^ 64 ≡ s.dust + s.amount % 10 * s.order
  dust_word = mod-eq_of_lt (ground (arith, k.whole, k.dust_pushed, split10 s.amount s.order))

  -- The next order is not zero while there are digits.
  next_order : 0 < s.amount / 10 → s.order * 10 % 2 ^ 64 ≡ s.order * 10
  next_order more = order_fits s.amount s.order total within ht more

  join_dust-Keeps :
      s.dust + s.amount % 10 * s.order ≤ threshold
      → Keeps total threshold (join_dust s (s.dust + s.amount % 10 * s.order))
  unfolding join_dust
  join_dust-Keeps small = elim (Bool-cases s.is_dust_handled) [
    | inl handled ↦
        let nothing : s.amount % 10 * s.order ≡ 0 =
          no_digit s.amount s.order (omega (arith, k.beyond handled pos)) in
        record {
          whole = ground (arith, k.whole, left, split10 s.amount s.order);
          dust_pushed = λ h. omega (arith, k.dust_pushed handled);
          beyond = λ h more. omega (arith, k.beyond handled pos, next_order more);
          order_pos = λ more. omega (arith, k.order_pos pos, next_order more);
        }
    | inr waits ↦ record {
      whole = ground (arith, k.whole, left, split10 s.amount s.order);
      dust_pushed = λ h. cc;
      beyond = λ h more. cc;
      order_pos = λ more. omega (arith, k.order_pos pos, next_order more);
    }
  ]

  push_chunk-Keeps :
      threshold < s.dust + s.amount % 10 * s.order
      → Keeps total threshold (push_chunk s (s.amount % 10 * s.order))
  unfolding push_chunk
  push_chunk-Keeps large = record {
    whole =
        ground
          (arith, dust_waits_cases s, k.whole, left, split10 s.amount s.order, pushed, unpushed);
    dust_pushed = λ h. ground (arith, dust_waits_cases s, k.dust_pushed, pushed, unpushed);
    beyond = λ h more. omega (arith, next_order more, digit_below s.amount s.order);
    order_pos = λ more. omega (arith, k.order_pos pos, next_order more);
  }
    where
      pushed :
          sum (push_nonzero (push_dust s.decomposed_amounts s.dust) (s.amount % 10 * s.order))
          ≡ sum s.decomposed_amounts + s.dust + s.amount % 10 * s.order
      pushed = omega (
        arith,
        sum-push_dust s.decomposed_amounts s.dust,
        sum-push_nonzero (push_dust s.decomposed_amounts s.dust) (s.amount % 10 * s.order),
      )

      unpushed :
          sum (push_nonzero s.decomposed_amounts (s.amount % 10 * s.order))
          ≡ sum s.decomposed_amounts + s.amount % 10 * s.order
      unpushed = sum-push_nonzero s.decomposed_amounts (s.amount % 10 * s.order)

  digit_step-Keeps : Keeps total threshold (digit_step threshold s)
  unfolding digit_step
  digit_step-Keeps =
      rw (exact_chunk, dust_word)
        (elim (Bool-cases (leb (s.dust + s.amount % 10 * s.order) threshold)) [
          | inl small ↦ rw small (join_dust-Keeps (ground arith))
          | inr large ↦ rw large (push_chunk-Keeps (ground arith))
        ])

digit_step-amount : (threshold : ℕ) (s : Digits) → (digit_step threshold s).amount ≡ s.amount / 10
unfolding digit_step join_dust push_chunk
digit_step-amount threshold s = ground arith

digit_loop_done :
    (fuel threshold : ℕ) (s : Digits)
    → (s.amount == 0) ≡ true
    → digit_loop (suc fuel) threshold s ≡ some s
unfolding digit_loop
digit_loop_done fuel threshold s done = ground arith

digit_loop_more :
    (fuel threshold : ℕ) (s : Digits)
    → (s.amount == 0) ≡ false
    → digit_loop (suc fuel) threshold s ≡ digit_loop fuel threshold (digit_step threshold s)
unfolding digit_loop
digit_loop_more fuel threshold s more = ground arith

-- Enough rounds leave no amount.
digit_loop-Keeps :
    (fuel total threshold : ℕ) (s : Digits)
    → total < 2 ^ 64
    → s.amount < 10 ^ fuel
    → Keeps total threshold s
    → (t : Digits) × (digit_loop fuel threshold s ≡ some t)
      × Keeps total threshold t
      × (t.amount ≡ 0)
digit_loop-Keeps zero total threshold s ht few k =
    (s, unfold digit_loop in ground arith, k, omega arith)
digit_loop-Keeps (suc fuel) total threshold s ht few k = elim (Bool-cases (s.amount == 0)) [
  | inl done ↦ (s, digit_loop_done fuel threshold s done, k, ground arith)
  | inr more ↦
      let next = digit_step threshold s in
      let (t, run, keeps, ended) =
        digit_loop-Keeps fuel total threshold next ht
          (omega (arith, digit_step-amount threshold s, pow-suc 10 fuel))
          (digit_step-Keeps total threshold s ht (ground arith) k) in
      (t, digit_loop_more fuel threshold s more ∙ run, keeps, ended)
]

finish_digits-sum :
    (total threshold : ℕ) (t : Digits)
    → Keeps total threshold t
    → t.amount ≡ 0
    → sum (finish_digits t) ≡ total
finish_digits-sum total threshold t k ended = ground (
  arith,
  dust_waits_cases t,
  k.whole,
  ap (λ (a : ℕ). a * t.order) ended,
  sum-push_dust t.decomposed_amounts t.dust,
)

decompose_amount-run :
    (amount threshold : ℕ) (t : Digits)
    → digit_loop 20 threshold (start_digits amount) ≡ some t
    → decompose_amount amount threshold ≡ some (finish_digits t)
unfolding decompose_amount
decompose_amount-run amount threshold t run = ap (λ m. m >>= λ s. some (finish_digits s)) run

start-Keeps : (amount threshold : ℕ) → Keeps amount threshold (start_digits amount)
start-Keeps amount threshold = record {
  whole = omega arith;
  dust_pushed = λ p. cc;
  beyond = λ p q. cc;
  order_pos = λ q. omega arith;
}

-- The decomposition of a 64-bit amount ends, whatever the dust threshold is, and its parts add up
-- to the amount.
pub sum-decompose_amount :
    (amount threshold : ℕ)
    → amount < 2 ^ 64
    → (parts : List ℕ) × (decompose_amount amount threshold ≡ some parts) × (sum parts ≡ amount)
sum-decompose_amount amount threshold h =
    let (t, run, keeps, ended) =
      digit_loop-Keeps 20 amount threshold (start_digits amount) h (omega arith)
        (start-Keeps amount threshold) in
    (
      finish_digits t,
      decompose_amount-run amount threshold t run,
      finish_digits-sum amount threshold t keeps ended,
    )
