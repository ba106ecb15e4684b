-- ===== src/BlockChain/Segment.antt =====
-- `BlockChain::get_tip_segment`: the last headers of a branch, from the oldest to the newest.
use Prim.Native.Nat.{min}
use naza.Common.{ℕ, zero, suc, ◌+◌, ◌-◌, ◌^◌, ◌≤◌, ◌<◌}
use naza.Common.{◌≡◌, refl, sym, ap, ◌∙◌, inl, inr, arith}
use naza.Common.{Bool, true, false, not, ◌&&◌, ltb, ◌==◌, if◌then◌else◌, Bool-cases}
use naza.Common.{Option, none, some, List, [], ◌∷◌, ◌++◌}
use naza.Common.{length, length-append}
use mathlib.Core.List.{reverse}
use naza.Common.Options.{◌>>=◌, ◌>>◌, guard}
use naza.Block.{BlockHeader}
use naza.BlockChain.Ancestor.{Headers, IsTree}

-- `while (result.size() < window && pi.height != 0)`, with a round for every height; the headers that
-- were pushed and the last `pi`.
unfoldable pub segment_loop :
    ℕ → Headers → ℕ → ℕ → BlockHeader → Option (List BlockHeader × BlockHeader)
segment_loop zero headers window size pi =
    if ltb size window && not (pi.height == 0) then none else some ([], pi)
segment_loop (suc fuel) headers window size pi = elim (ltb size window && not (pi.height == 0)) [
  | false ↦ some ([], pi)
  | true ↦ headers pi.previous_block_hash >>= λ parent.
      segment_loop fuel headers window (size + 1) parent >>= λ rest. some (pi ∷ rest.0, rest.1)
]

unfoldable pub get_tip_segment : Headers → BlockHeader → ℕ → Bool → Option (List BlockHeader)
get_tip_segment headers prev_info window add_genesis = elim (prev_info.height == 2 ^ 32 - 1) [
  | true ↦ some []
  | false ↦ segment_loop prev_info.height headers window 0 prev_info >>= λ r.
      elim (ltb (length r.0) window && add_genesis) [
        | false ↦ some (reverse r.0)
        | true ↦ guard (r.1.height == 0) >> some (reverse (r.0 ++ r.1 ∷ []))
      ]
]

-- Every header but the first is the parent of the one before it, and the first is `h`.
abbrev pub Descent : Headers → BlockHeader → List BlockHeader → Type 0
Descent headers h [] = Unit
Descent headers h (x ∷ []) = x ≡ h
Descent headers h (x ∷ y ∷ ys) =
    (x ≡ h) × (headers h.previous_block_hash ≡ some y) × Descent headers y (y ∷ ys)

abbrev pub count : Bool → ℕ
count add_genesis = if add_genesis then 1 else 0

segment_loop_done :
    (fuel : ℕ) (headers : Headers) (window size : ℕ) (pi : BlockHeader)
    → (ltb size window && not (pi.height == 0)) ≡ false
    → segment_loop fuel headers window size pi ≡ some ([], pi)
unfolding segment_loop
segment_loop_done zero headers window size pi done = rw done refl
segment_loop_done (suc fuel) headers window size pi done = grind (arith, done)

segment_loop_more :
    (fuel : ℕ) (headers : Headers) (window size : ℕ) (pi parent end : BlockHeader)
    (rest : List BlockHeader)
    → (ltb size window && not (pi.height == 0)) ≡ true
    → headers pi.previous_block_hash ≡ some parent
    → segment_loop fuel headers window (size + 1) parent ≡ some (rest, end)
    → segment_loop (suc fuel) headers window size pi ≡ some (pi ∷ rest, end)
unfolding segment_loop
segment_loop_more fuel headers window size pi parent end rest more step run =
    grind (arith, more, step, run)

-- A descent goes on with the parent of its last header.
cons-Descent :
    (headers : Headers) (h p : BlockHeader) (xs : List BlockHeader)
    → headers h.previous_block_hash ≡ some p
    → Descent headers p xs
    → Descent headers h (h ∷ xs)
cons-Descent headers h p [] e d = refl
cons-Descent headers h p (y ∷ []) e d = (refl, e ∙ ap some (sym d), refl)
cons-Descent headers h p (y ∷ z ∷ zs) e (same, next, rest) = (
  refl,
  e ∙ ap some (sym same),
  (refl, ap (λ (g : BlockHeader). headers g.previous_block_hash) same ∙ next, rest),
)

module _ (headers : Headers) (genesis_bid : ℕ) (tree : IsTree headers genesis_bid) where
  segment_loop_lem :
      (fuel window size bid : ℕ) (h : BlockHeader)
      → headers bid ≡ some h
      → h.height ≤ fuel
      → size ≤ window
      → (r : List BlockHeader) × (end : BlockHeader) × (segment_loop fuel headers window size h
          ≡ some (r, end))
        × Descent headers h r
        × Descent headers h (r ++ end ∷ [])
        × (length r ≡ min (window - size) h.height)
        × (length r + end.height ≡ h.height)
  segment_loop_lem zero window size bid h e enough room = (
    [],
    h,
    segment_loop_done zero headers window size h (ground arith),
    tt,
    refl,
    omega arith,
    omega arith,
  )
  segment_loop_lem (suc fuel) window size bid h e enough room =
      elim (Bool-cases (ltb size window && not (h.height == 0))) [
        | inr done ↦ (
          [],
          h,
          segment_loop_done (suc fuel) headers window size h done,
          tt,
          refl,
          ground arith,
          omega arith,
        )
        | inl more ↦
            let (p, ep, lower) = tree.parent bid h e (ground arith) in
            let (r, end, run, d, d', taken, level) =
              segment_loop_lem fuel window (size + 1) h.previous_block_hash p ep (omega arith)
                (ground arith) in
            (
              h ∷ r,
              end,
              segment_loop_more fuel headers window size h p end r more ep run,
              cons-Descent headers h p r ep d,
              cons-Descent headers h p (r ++ end ∷ []) ep d',
              grow r h p taken lower (ground arith),
              omega (arith, level, lower),
            )
      ]
    where
      grow :
          (r : List BlockHeader) (h p : BlockHeader)
          → length r ≡ min (window - (size + 1)) p.height
          → p.height + 1 ≡ h.height
          → size < window
          → suc (length r) ≡ min (window - size) h.height
      grow r h p taken lower below = omega arith

  -- In a tree of headers, for a stored header below the height 2^32 - 1: the segment is found, its
  -- headers lead from the given one down from parent to parent, in the opposite order, and there
  -- are as many as the window, or as there are headers down to the genesis block, which counts
  -- where it is asked for.
  pub get_tip_segment_lem :
      (bid window : ℕ) (prev_info : BlockHeader) (add_genesis : Bool)
      → headers bid ≡ some prev_info
      → prev_info.height < 2 ^ 32 - 1
      → (r : List BlockHeader) × (get_tip_segment headers prev_info window add_genesis
          ≡ some (reverse r))
        × Descent headers prev_info r
        × (length r ≡ min window (prev_info.height + count add_genesis))
  unfolding get_tip_segment
  get_tip_segment_lem bid window prev_info add_genesis e room =
      let (r, end, run, d, d', taken, level) =
        segment_loop_lem prev_info.height window 0 bid prev_info e (omega arith) (omega arith) in
      let real : (prev_info.height == 2 ^ 32 - 1) ≡ false = ground arith in
      elim (Bool-cases (ltb (length r) window && add_genesis)) [
        | inr full ↦ (
          r,
          grind (arith, real, run, full),
          d,
          short window (length r) prev_info.height add_genesis taken full,
        )
        | inl more ↦
            let (at_end, counted) =
              reach window (length r) end.height prev_info.height add_genesis taken level more in
            (
              r ++ end ∷ [],
              grind (arith, real, run, more, at_end),
              d',
              length-append r (end ∷ []) ∙ counted,
            )
      ]
    where
      short :
          (window n height : ℕ) (add_genesis : Bool)
          → n ≡ min (window - 0) height
          → (ltb n window && add_genesis) ≡ false
          → n ≡ min window (height + count add_genesis)
      short window n height true taken full = ground arith
      short window n height false taken full = ground arith

      reach :
          (window n last height : ℕ) (add_genesis : Bool)
          → n ≡ min (window - 0) height
          → n + last ≡ height
          → (ltb n window && add_genesis) ≡ true
          → ((last == 0) ≡ true) × (n + 1 ≡ min window (height + count add_genesis))
      reach window n last height true taken level more = (ground arith, ground arith)
      reach window n last height false taken level more = absurd (ground arith)
