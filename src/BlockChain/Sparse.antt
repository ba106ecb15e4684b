-- ===== src/BlockChain/Sparse.antt =====
-- `get_sparse_chain`: the distances from the tip grow, and the path ends in the genesis block.
use native.Mathlib.Decide.{dec_le}
use native.Mathlib.Nat.{pow-suc, one-le-pow}
use naza.Common.{ℕ, zero, suc, ◌+◌, ◌-◌, ◌*◌, ◌^◌, ◌≤◌, ◌<◌}
use naza.Common.{◌≡◌, refl, ap, ◌∙◌, ◌⊎◌, inl, inr, arith}
use naza.Common.{true, false, leb, ◌==◌, Bool-cases}
use naza.Common.{some, List, [], ◌∷◌, ◌++◌}
use naza.Common.{get_elem?, All}
use naza.Common.{All-append}
use naza.BlockChain.{IBlockState, BlockChain}
use naza.BlockChain.Valid.{Replay-tip, IsValid}
use naza.BlockChain.Locator.{back, next_jump, last_or_genesis, sparse_loop, get_sparse_chain}
use naza.BlockChain.Landing.{Replay-filled, Replay-genesis}

-- The distance that goes with a number of blocks.
abbrev Distance : ℕ → ℕ → Type 0
Distance size jump = ((size ≤ 10) × (jump ≡ size)) ⊎ ((10 ≤ size) × (jump ≡ 8 + 2 ^ (size - 9)))

double : (n : ℕ) → 10 ≤ n → 2 ^ (n + 1 - 9) ≡ 2 * 2 ^ (n - 9)
double n h = ap (λ (m : ℕ). 2 ^ m) (shift n h) ∙ pow-suc 2 (n - 9) ∙ omega arith
  where
    shift : (n : ℕ) → 10 ≤ n → n + 1 - 9 ≡ suc (n - 9)
    shift n h = omega arith

-- From ten blocks on the distance is 8 and a power of two, which the step doubles.
far :
    (n jump : ℕ)
    → 10 ≤ n
    → jump ≡ 8 + 2 ^ (n - 9)
    → jump < 2 ^ 31
    → (10 ≤ n + 1)
      × (next_jump (n + 1) jump ≡ 8 + 2 ^ (n + 1 - 9))
      × (jump < next_jump (n + 1) jump)
far n jump large same room =
    let e : 2 ^ (n + 1 - 9) ≡ 2 * 2 ^ (n - 9) = double n large in
    let f : 2 ^ (n + 1 - 10) ≡ 2 ^ (n - 9) = ap (λ (m : ℕ). 2 ^ m) (omega arith) in
    let late : leb (n + 1) 10 ≡ false = ground arith in
    let pos : 1 ≤ 2 ^ (n - 9) = one-le-pow (n - 9) 2 (omega arith) in
    (
      omega arith,
      rw late (omega (arith, same, e, f, room)),
      rw late (omega (arith, same, e, f, room, pos)),
    )

next_jump-Distance :
    (size jump : ℕ)
    → Distance size jump
    → jump < 2 ^ 31
    → Distance (size + 1) (next_jump (size + 1) jump) × (jump < next_jump (size + 1) jump)
next_jump-Distance size jump (inl (small, same)) room = elim (dec_le size 9) [
  | yes p ↦ (inl (omega arith, ground arith), ground arith)
  | no p ↦
      let ten : size ≡ 10 = omega arith in
      let (more, is, grows) =
        far size jump (omega arith) (rw ten (omega (arith, same, ten))) room in
      (inr (more, is), grows)
]
next_jump-Distance size jump (inr (large, same)) room =
    let (more, is, grows) = far size jump large same room in (inr (more, is), grows)

module _ {S : Type 0} (ops : IBlockState S) (genesis_state : S) where
  sparse_loop_stop :
      (fuel size jump : ℕ) (bc : BlockChain S)
      → leb jump bc.tip_height ≡ false
      → sparse_loop fuel bc size jump ≡ some []
  unfolding sparse_loop
  sparse_loop_stop zero size jump bc past = rw past refl
  sparse_loop_stop (suc fuel) size jump bc past = grind (arith, past)

  sparse_loop_more :
      (fuel size jump : ℕ) (bc : BlockChain S) (x : ℕ) (xs : List ℕ)
      → leb jump bc.tip_height ≡ true
      → bc.chain (bc.tip_height - jump) ≡ some x
      → sparse_loop fuel bc (size + 1) (next_jump (size + 1) jump) ≡ some xs
      → sparse_loop (suc fuel) bc size jump ≡ some (x ∷ xs)
  unfolding sparse_loop
  sparse_loop_more fuel size jump bc x xs inside e run = grind (arith, inside, e, run)

  -- On the main chain.
  abbrev pub InChain : BlockChain S → ℕ → Type 0
  InChain bc b = (n : ℕ) × (n ≤ bc.tip_height) × (bc.chain n ≡ some b)

  sparse_loop_lem :
      (fuel size jump : ℕ) (bc : BlockChain S)
      → IsValid ops genesis_state bc
      → bc.tip_height < 2 ^ 31
      → Distance size jump
      → bc.tip_height < fuel + jump
      → (path : List ℕ) × (sparse_loop fuel bc size jump ≡ some path) × All (InChain bc) path
  sparse_loop_lem zero size jump bc v room d enough =
      ([], sparse_loop_stop zero size jump bc (ground arith), tt)
  sparse_loop_lem (suc fuel) size jump bc v room d enough =
      elim (Bool-cases (leb jump bc.tip_height)) [
        | inr past ↦ ([], sparse_loop_stop (suc fuel) size jump bc past, tt)
        | inl inside ↦
            let inside' : jump ≤ bc.tip_height = ground (arith, inside) in
            let (d', grows) = next_jump-Distance size jump d (omega arith) in
            let (x, e) =
              Replay-filled ops genesis_state bc bc.tip_height bc.tip_bid bc.state v.replay
                (bc.tip_height - jump) (omega arith) in
            let (xs, run, all) =
              sparse_loop_lem fuel (size + 1) (next_jump (size + 1) jump) bc v room d'
                (omega (arith, grows)) in
            (
              x ∷ xs,
              sparse_loop_more fuel size jump bc x xs inside e run,
              ((bc.tip_height - jump, omega arith, e), all),
            )
      ]

  back-append : (xs : List ℕ) (g d : ℕ) → back d (xs ++ g ∷ []) ≡ g
  back-append [] g d = refl
  back-append (x ∷ xs) g d = back-append xs g x

  last_or_genesis-All :
      (bc : BlockChain S) (path : List ℕ)
      → InChain bc bc.genesis_bid
      → All (InChain bc) path
      → (back bc.genesis_bid (last_or_genesis bc.genesis_bid path) ≡ bc.genesis_bid)
        × All (InChain bc) (last_or_genesis bc.genesis_bid path)
  last_or_genesis-All bc path start all =
      elim (Bool-cases (back bc.genesis_bid path == bc.genesis_bid)) [
        | inl same ↦ rw same (ground arith, all)
        | inr differ ↦ rw differ (
          back-append path bc.genesis_bid bc.genesis_bid,
          All-append (InChain bc) path (bc.genesis_bid ∷ []) all (start, tt),
        )
      ]

  last_or_genesis-first :
      (g x : ℕ) (xs : List ℕ) → get_elem? (last_or_genesis g (x ∷ xs)) 0 ≡ some x
  last_or_genesis-first g x xs = elim (Bool-cases (back x xs == g)) [
    | inl same ↦ rw same refl
    | inr differ ↦ rw differ refl
  ]

  -- On a valid main chain below the height 2^31 the loop of `get_sparse_chain` ends without an
  -- exception; the path starts with the tip, ends with the genesis block, and all its blocks are
  -- on the main chain.
  pub get_sparse_chain_lem :
      (bc : BlockChain S)
      → IsValid ops genesis_state bc
      → bc.tip_height < 2 ^ 31
      → (path : List ℕ) × (get_sparse_chain bc ≡ some path)
        × (get_elem? path 0 ≡ some bc.tip_bid)
        × (back bc.genesis_bid path ≡ bc.genesis_bid)
        × All (InChain bc) path
  unfolding get_sparse_chain
  get_sparse_chain_lem bc v room =
      let n = bc.tip_height in
      let tip : bc.chain (n - 0) ≡ some bc.tip_bid =
        ap bc.chain (whole n) ∙ Replay-tip ops genesis_state bc n bc.tip_bid bc.state v.replay in
      let (d, grows) = next_jump-Distance 0 0 (inl (omega arith, refl)) (omega arith) in
      let (xs, run, all) =
        sparse_loop_lem n (0 + 1) (next_jump (0 + 1) 0) bc v room d (omega (arith, grows)) in
      let start : InChain bc bc.genesis_bid = (
        0,
        omega arith,
        Replay-genesis ops genesis_state bc n bc.tip_bid bc.state v.tip_header v.tree v.tip_stored
            v.tip_level v.replay,
      ) in
      let (ends, within) =
        last_or_genesis-All bc (bc.tip_bid ∷ xs) start ((n - 0, omega arith, tip), all) in
      (
        last_or_genesis bc.genesis_bid (bc.tip_bid ∷ xs),
        rw (sparse_loop_more n 0 0 bc bc.tip_bid xs (ground arith) tip run) refl,
        last_or_genesis-first bc.genesis_bid bc.tip_bid xs,
        ends,
        within,
      )
    where
      whole : (n : ℕ) → n - 0 ≡ n
      whole n = omega arith
