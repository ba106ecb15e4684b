-- ===== src/Currency/NextDifficulty.antt =====
-- `Currency::next_difficulty_v1` of src/Core/Currency.cpp: the difficulty from the times and the
-- cumulative difficulties of the last blocks. The asserts are not checked, as in a release.
use Prim.Native.Nat.{max, min}
use naza.Common.{ℕ, zero, suc, ◌+◌, ◌-◌, ◌*◌, ◌/◌, ◌%◌, ◌^◌, ◌≤◌}
use naza.Common.{◌≡◌, ◌⊎◌, arith}
use naza.Common.{not, ◌||◌, ltb, leb, ◌==◌, if◌then◌else◌}
use naza.Common.{Option, none, some, List, [], ◌∷◌}
use naza.Common.{length, take, drop}
use naza.Words.{mul128}
use naza.Currency.Params.{Currency}

-- `std::sort`
abbrev pub insert_sorted : ℕ → List ℕ → List ℕ
insert_sorted x [] = x ∷ []
insert_sorted x (y ∷ ys) = if leb x y then x ∷ y ∷ ys else y ∷ insert_sorted x ys

abbrev pub sort : List ℕ → List ℕ
sort [] = []
sort (x ∷ xs) = insert_sorted x (sort xs)

-- An element of a vector; 0 past its end, where the code does not read.
abbrev pub at : List ℕ → ℕ → ℕ
at [] i = 0
at (x ∷ xs) zero = x
at (x ∷ xs) (suc i) = at xs i

-- `cutBegin` and `cutEnd`
abbrev pub cut_range : ℕ → ℕ → ℕ → ℕ × ℕ
cut_range length window cut =
    let kept = window - 2 * cut in
    if leb length kept
    then (0, length)
    else let begin = (length - kept + 1) / 2 in (begin, begin + kept)

-- `Timestamp` has 32 bits.
unfoldable pub time_span : List ℕ → ℕ × ℕ → ℕ
time_span timestamps (begin, end) =
    let span = (at (sort timestamps) (end - 1) + 2 ^ 32 - at (sort timestamps) begin) % 2 ^ 32 in
    if span == 0 then 1 else span

unfoldable pub total_work : List ℕ → ℕ × ℕ → ℕ
total_work cumulative_difficulties (begin, end) =
    (at cumulative_difficulties (end - 1) + 2 ^ 64 - at cumulative_difficulties begin) % 2 ^ 64

-- The work times the target, or `none` where the function returns 0.
unfoldable pub scaled_work : ℕ → ℕ → ℕ → Option ℕ
scaled_work difficulty_target work span =
    let product = mul128 work difficulty_target in
    if not (product.hi == 0) || ltb (2 ^ 64 - 1 - product.lo) (span - 1)
    then none
    else some product.lo

-- The part for blocks from `hardfork_v1_height` on: the last 17 of the blocks, with no cut.
unfoldable pub recent_difficulty : Currency → ℕ → List ℕ → List ℕ → ℕ
recent_difficulty c size timestamps cumulative_difficulties =
    let count = min 17 size in
    let last_times = drop (length timestamps - count) timestamps in
    let last_works = drop (length cumulative_difficulties - count) cumulative_difficulties in
    let range = cut_range (length last_times) 17 0 in
    if leb (length last_times) 1
    then 1
    else elim (scaled_work c.difficulty_target (total_work last_works range)
        (time_span last_times range)) [
          | none ↦ 0
          | some low ↦ max 100 (low / time_span last_times range)
        ]

-- The range of the first part, over at most a window of blocks.
abbrev pub window_range : Currency → List ℕ → ℕ × ℕ
window_range c timestamps =
    cut_range (length (take c.difficulty_window timestamps)) c.difficulty_window c.difficulty_cut

abbrev pub window_span : Currency → List ℕ → ℕ
window_span c timestamps =
    time_span (take c.difficulty_window timestamps) (window_range c timestamps)

abbrev pub window_work : Currency → List ℕ → List ℕ → ℕ
window_work c timestamps cumulative_difficulties =
    total_work (take c.difficulty_window cumulative_difficulties) (window_range c timestamps)

unfoldable pub next_difficulty_v1 : Currency → ℕ → List ℕ → List ℕ → ℕ
next_difficulty_v1 c block_index timestamps cumulative_difficulties =
    let size = length (take c.difficulty_window timestamps) in
    let span = window_span c timestamps in
    if leb size 1
    then 1
    else elim (scaled_work c.difficulty_target (window_work c timestamps cumulative_difficulties)
        span) [
          | none ↦ 0
          | some low ↦
              if leb c.hardfork_v1_height block_index
              then recent_difficulty c size timestamps cumulative_difficulties
              else (low + span - 1) / span
        ]

recent_difficulty_least :
    (c : Currency) (size : ℕ) (timestamps works : List ℕ)
    → (recent_difficulty c size timestamps works ≡ 0)
      ⊎ ((recent_difficulty c size timestamps works ≡ 1)
          ⊎ (100 ≤ recent_difficulty c size timestamps works))
unfolding recent_difficulty
recent_difficulty_least c size timestamps works = ground arith

-- From the first hard fork on, the next difficulty of the first algorithm is 0, 1 or at least 100.
pub next_difficulty_v1_least :
    (c : Currency) (block_index : ℕ) (timestamps cumulative_difficulties : List ℕ)
    → c.hardfork_v1_height ≤ block_index
    → (next_difficulty_v1 c block_index timestamps cumulative_difficulties ≡ 0)
      ⊎ ((next_difficulty_v1 c block_index timestamps cumulative_difficulties ≡ 1)
          ⊎ (100 ≤ next_difficulty_v1 c block_index timestamps cumulative_difficulties))
unfolding next_difficulty_v1
next_difficulty_v1_least c block_index timestamps works late =
    let least =
      recent_difficulty_least c (length (take c.difficulty_window timestamps)) timestamps works in
    ground (arith, least)
