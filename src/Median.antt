-- ===== src/Median.antt =====
-- common/Math.hpp: the median of a vector whose elements have `w` bits.
mod Tests
use native.Mathlib.Nat.{mod-eq_of_lt}
use naza.Common.{ℕ, zero, suc, ◌+◌, ◌-◌, ◌*◌, ◌/◌, ◌%◌, ◌^◌, ◌≤◌, ◌<◌, ◌≡◌, ◌≢◌, refl, arith}
use naza.Common.{List, [], ◌∷◌, length, All, ltb, leb, ◌==◌, if◌then◌else◌, Bool-cases}
use naza.Common.{Bool, true, false, inl, inr}
use naza.Currency.NextDifficulty.{insert_sorted, sort, at}

unfoldable pub median_value : ℕ → List ℕ → ℕ
median_value w v =
    let n = length v / 2 in
    if length v == 0
    then 0
    else if length v % 2 == 1
    then at (sort v) n
    else (at (sort v) (n - 1) + at (sort v) n) % 2 ^ w / 2

-- How many elements pass a test.
abbrev pub count : (ℕ → Bool) → List ℕ → ℕ
count p [] = 0
count p (x ∷ xs) = (if p x then 1 else 0) + count p xs

abbrev pub below : List ℕ → ℕ → ℕ
below v m = count (λ x. ltb x m) v

abbrev pub above : List ℕ → ℕ → ℕ
above v m = count (λ x. ltb m x) v

-- The mean, rounded down, of the lower and the upper middle element, which are one element where the
-- length is odd: less than half of the elements are below the lower one and at most half above it,
-- and the other way round for the upper one.
abbrev pub IsMedian : List ℕ → ℕ → Type 0
IsMedian v m =
    (low : ℕ) × (high : ℕ) × (2 * below v low < length v)
    × (2 * above v low ≤ length v)
    × (2 * below v high ≤ length v)
    × (2 * above v high < length v)
    × (m ≡ (low + high) / 2)

count-insert_sorted :
    (p : ℕ → Bool) (x : ℕ) (xs : List ℕ)
    → count p (insert_sorted x xs) ≡ (if p x then 1 else 0) + count p xs
count-insert_sorted p x [] = refl
count-insert_sorted p x (y ∷ ys) = ground (arith, count-insert_sorted p x ys)

count-sort : (p : ℕ → Bool) (xs : List ℕ) → count p (sort xs) ≡ count p xs
count-sort p [] = refl
count-sort p (x ∷ xs) = omega (arith, count-insert_sorted p x (sort xs), count-sort p xs)

length-insert_sorted : (x : ℕ) (xs : List ℕ) → length (insert_sorted x xs) ≡ suc (length xs)
length-insert_sorted x [] = omega arith
length-insert_sorted x (y ∷ ys) = ground (arith, length-insert_sorted x ys)

length-sort : (xs : List ℕ) → length (sort xs) ≡ length xs
length-sort [] = omega arith
length-sort (x ∷ xs) = omega (arith, length-insert_sorted x (sort xs), length-sort xs)

All-insert_sorted :
    (P : ℕ → Type 0) (x : ℕ) (xs : List ℕ) → P x → All P xs → All P (insert_sorted x xs)
All-insert_sorted P x [] h k = (h, k)
All-insert_sorted P x (y ∷ ys) h k = elim (Bool-cases (leb x y)) [
  | inl e ↦ rw e (h, k)
  | inr e ↦ rw e (k.0, All-insert_sorted P x ys h k.1)
]

All-sort : (P : ℕ → Type 0) (xs : List ℕ) → All P xs → All P (sort xs)
All-sort P [] h = h
All-sort P (x ∷ xs) h = All-insert_sorted P x (sort xs) h.0 (All-sort P xs h.1)

All-at : (P : ℕ → Type 0) (i : ℕ) (xs : List ℕ) → All P xs → i < length xs → P (at xs i)
All-at P i [] h k = absurd (omega arith)
All-at P zero (x ∷ xs) h k = h.0
All-at P (suc i) (x ∷ xs) h k = All-at P i xs h.1 (omega arith)

-- Each element is at most all that follow it.
abbrev pub IsSorted : List ℕ → Type 0
IsSorted [] = Unit {0}
IsSorted (x ∷ xs) = All (λ y. x ≤ y) xs × IsSorted xs

All-le : (x y : ℕ) (xs : List ℕ) → x ≤ y → All (λ z. y ≤ z) xs → All (λ z. x ≤ z) xs
All-le x y [] h k = tt
All-le x y (z ∷ zs) h k = (omega (arith, k.0), All-le x y zs h k.1)

insert_sorted-IsSorted : (x : ℕ) (xs : List ℕ) → IsSorted xs → IsSorted (insert_sorted x xs)
insert_sorted-IsSorted x [] s = (tt, tt)
insert_sorted-IsSorted x (y ∷ ys) s = elim (Bool-cases (leb x y)) [
  | inl e ↦ let le : x ≤ y = ground arith in rw e ((le, All-le x y ys le s.0), s)
  | inr e ↦
      let le : y ≤ x = ground arith in
      rw e (All-insert_sorted (λ z. y ≤ z) x ys le s.0, insert_sorted-IsSorted x ys s.1)
]

sort-IsSorted : (xs : List ℕ) → IsSorted (sort xs)
sort-IsSorted [] = tt
sort-IsSorted (x ∷ xs) = insert_sorted-IsSorted x (sort xs) (sort-IsSorted xs)

below_none : (m : ℕ) (xs : List ℕ) → All (λ z. m ≤ z) xs → below xs m ≡ 0
below_none m [] h = refl
below_none m (x ∷ xs) h = ground (arith, h.0, below_none m xs h.1)

count_most : (p : ℕ → Bool) (xs : List ℕ) → count p xs ≤ length xs
count_most p [] = omega arith
count_most p (x ∷ xs) = ground (arith, count_most p xs)

-- In a sorted list at most the elements before an element are below it.
below-at : (i : ℕ) (xs : List ℕ) → IsSorted xs → i < length xs → below xs (at xs i) ≤ i
below-at i [] s k = absurd (omega arith)
below-at zero (x ∷ xs) s k = ground (arith, below_none x xs s.0)
below-at (suc i) (x ∷ xs) s k =
    let rest : below xs (at xs i) ≤ i = below-at i xs s.1 (omega arith) in ground (arith, rest)

-- And at most the elements after it are above it.
above-at :
    (i : ℕ) (xs : List ℕ) → IsSorted xs → i < length xs → above xs (at xs i) + suc i ≤ length xs
above-at i [] s k = absurd (omega arith)
above-at zero (x ∷ xs) s k = ground (arith, count_most (λ z. ltb x z) xs)
above-at (suc i) (x ∷ xs) s k =
    let rest : above xs (at xs i) + suc i ≤ length xs = above-at i xs s.1 (omega arith) in
    let le : x ≤ at xs i = All-at (λ z. x ≤ z) i xs s.0 (omega arith) in ground (arith, rest, le)

-- An element of the sorted vector, with what is below and above it in the vector.
middle :
    (v : List ℕ) (i : ℕ)
    → i < length v
    → (below v (at (sort v) i) ≤ i) × (above v (at (sort v) i) + suc i ≤ length v)
middle v i k =
    let size = length-sort v in
    let x = at (sort v) i in
    (
      omega
          (arith, below-at i (sort v) (sort-IsSorted v) (omega arith), count-sort (λ z. ltb z x) v),
      omega
          (arith, above-at i (sort v) (sort-IsSorted v) (omega arith), count-sort (λ z. ltb x z) v),
    )

-- Of a vector that is not empty, where twice each element fits the type of the elements:
-- `median_value` is the mean, rounded down, of the lower and the upper middle element, which less
-- than half of the elements are below and above, respectively, and at most half above and below;
-- for an odd length they are one element.
pub median_value-IsMedian :
    (w : ℕ) (v : List ℕ) → 0 < length v → All (λ x. 2 * x < 2 ^ w) v → IsMedian v (median_value w v)
unfolding median_value
median_value-IsMedian w v some_element room =
    let n = length v / 2 in
    let size = length-sort v in
    let small = All-sort (λ x. 2 * x < 2 ^ w) v room in
    let (low_n, high_n) = middle v n (omega arith) in
    let nonzero : (length v == 0) ≡ false = ground arith in
    elim (Bool-cases (length v % 2 == 1)) [
      | inl odd ↦
          let at_n = at (sort v) n in
          let is_odd : length v % 2 ≡ 1 = ground arith in
          (
            at_n,
            at_n,
            omega arith,
            omega arith,
            omega arith,
            omega arith,
            rw (nonzero, odd) (omega arith),
          )
      | inr even ↦
          let is_even : length v % 2 ≢ 1 = λ e. differ (length v % 2) e even in
          let (low_m, high_m) = middle v (n - 1) (omega arith) in
          let x = at (sort v) (n - 1) in
          let y = at (sort v) n in
          let fits_x : 2 * x < 2 ^ w =
            All-at (λ z. 2 * z < 2 ^ w) (n - 1) (sort v) small (omega arith) in
          let fits_y : 2 * y < 2 ^ w = All-at (λ z. 2 * z < 2 ^ w) n (sort v) small (omega arith) in
          let fits : (x + y) % 2 ^ w ≡ x + y = mod-eq_of_lt (omega arith) in
          (x, y, omega arith, omega arith, omega arith, omega arith, rw (nonzero, even, fits) refl)
    ]
  where
    differ : (k : ℕ) → k ≡ 1 → (k == 1) ≡ false → ⊥
    differ k e f = ground (arith, e, f)
