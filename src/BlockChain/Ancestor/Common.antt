-- ===== src/BlockChain/Ancestor/Common.antt =====
-- The loop of `get_common_block` that climbs both branches, and what it promises.
use naza.Common.Options.{some_eq}
use Prim.Native.Nat.{min}
use native.Mathlib.Decide.{dec_le, dec_lt}
use naza.Common.{ℕ, zero, suc, ◌+◌, ◌≤◌, ◌<◌}
use naza.Common.{◌≡◌, refl, sym, ap, ◌∙◌, ◌⊎◌, inl, inr, arith}
use naza.Common.{true, false, ◌==◌, Bool-cases}
use naza.Common.{some, List, [], ◌∷◌}
use naza.Block.{BlockHeader}
use naza.BlockChain.Ancestor.{
  Headers, Climb, climb_step, climb_to, climb_both, CommonBlock, get_common_block, IsTree, Branch,
  IsAncestor, IsCommon,
}
use naza.BlockChain.Ancestor.Climbs.{
  IsClimb, climb_step-IsClimb, IsAncestor-parent, climb_to-IsClimb, climb_to_done,
}

module _ (headers : Headers) (genesis_bid : ℕ) (tree : IsTree headers genesis_bid) where
  climb_both_more :
      (fuel : ℕ) (c1 c2 d1 d2 : Climb)
      → (c1.hid == c2.hid) ≡ false
      → climb_step headers c1 ≡ some d1
      → climb_step headers c2 ≡ some d2
      → climb_both (suc fuel) headers c1 c2 ≡ climb_both fuel headers d1 d2
  unfolding climb_both
  climb_both_more fuel c1 c2 d1 d2 differ step1 step2 = grind (arith, step1, step2)

  climb_both_done :
      (fuel : ℕ) (c1 c2 : Climb)
      → (c1.hid == c2.hid) ≡ true
      → climb_both fuel headers c1 c2 ≡ some (c1, c2)
  unfolding climb_both
  climb_both_done zero c1 c2 same = ground arith
  climb_both_done (suc fuel) c1 c2 same = ground arith

  -- Of two different blocks at one height, none is the genesis block, and a common ancestor is lower.
  differ_above :
      (top1 top2 : ℕ) (c1 c2 : Climb)
      → IsClimb headers top1 0 c1
      → IsClimb headers top2 0 c2
      → c1.ha.height ≡ c2.ha.height
      → (c1.hid == c2.hid) ≡ false
      → 0 < c1.ha.height
  differ_above top1 top2 c1 c2 k1 k2 level differ = elim (dec_lt 0 c1.ha.height) [
    | yes p ↦ p
    | no p ↦
        let e1 = tree.genesis c1.hid c1.ha k1.header (omega arith) in
        let e2 = tree.genesis c2.hid c2.ha k2.header (omega arith) in absurd (ground arith)
  ]

  -- A block is its own ancestor, and any other ancestor is lower.
  ancestor_lower :
      (base : ℕ) (hb : BlockHeader) (top : ℕ) (ht : BlockHeader) (path : List ℕ)
      → headers base ≡ some hb
      → headers top ≡ some ht
      → Branch headers top path base
      → (top ≡ base) ⊎ (hb.height < ht.height)
  ancestor_lower base hb top ht [] eb et same = inl same
  ancestor_lower base hb top ht (x ∷ path) eb et (ex, h, eh, pos, rest) =
      let e : h ≡ ht = some_eq (sym eh ∙ et) in
      let (p, ep, lower) = tree.parent top h eh pos in
      let level : h.height ≡ ht.height = ap (λ (g : BlockHeader). g.height) e in
      elim (ancestor_lower base hb h.previous_block_hash p path eb ep rest) [
        | inl same ↦
            let e' : p ≡ hb = some_eq (sym ep ∙ ap headers same ∙ eb) in
            inr (omega (arith, ap (λ (g : BlockHeader). g.height) e'))
        | inr below ↦ inr (omega arith)
      ]

  -- A common ancestor of two different blocks at one height is lower.
  common_lower :
      (base : ℕ) (hb : BlockHeader) (top1 top2 : ℕ) (h1 h2 : BlockHeader)
      → headers base ≡ some hb
      → headers top1 ≡ some h1
      → headers top2 ≡ some h2
      → h1.height ≡ h2.height
      → (top1 == top2) ≡ false
      → IsAncestor headers base top1
      → IsAncestor headers base top2
      → hb.height < h1.height
  common_lower base hb top1 top2 h1 h2 eb e1 e2 level differ (p1, b1) (p2, b2) = ground (
    arith,
    ancestor_lower base hb top1 h1 p1 eb e1 b1,
    ancestor_lower base hb top2 h2 p2 eb e2 b2,
  )

  climb_both-IsClimb :
      (fuel top1 top2 : ℕ) (c1 c2 : Climb)
      → IsClimb headers top1 0 c1
      → IsClimb headers top2 0 c2
      → c1.ha.height ≡ c2.ha.height
      → c1.ha.height ≤ fuel
      → (d1 d2 : Climb) × (climb_both fuel headers c1 c2 ≡ some (d1, d2))
        × IsClimb headers top1 0 d1
        × IsClimb headers top2 0 d2
        × (d1.hid ≡ d2.hid)
        × ((base : ℕ) (hb : BlockHeader)
            → headers base ≡ some hb
            → IsAncestor headers base c1.hid
            → IsAncestor headers base c2.hid
            → IsAncestor headers base d1.hid)
  climb_both-IsClimb zero top1 top2 c1 c2 k1 k2 level enough =
      elim (Bool-cases (c1.hid == c2.hid)) [
        | inl same ↦
            (c1, c2, climb_both_done zero c1 c2 same, k1, k2, ground arith, λ base hb e a1 a2. a1)
        | inr differ ↦ absurd (omega (arith, differ_above top1 top2 c1 c2 k1 k2 level differ))
      ]
  climb_both-IsClimb (suc fuel) top1 top2 c1 c2 k1 k2 level enough =
      elim (Bool-cases (c1.hid == c2.hid)) [
        | inl same ↦ (
          c1,
          c2,
          climb_both_done (suc fuel) c1 c2 same,
          k1,
          k2,
          ground arith,
          λ base hb e a1 a2. a1,
        )
        | inr differ ↦
            let pos = differ_above top1 top2 c1 c2 k1 k2 level differ in
            let (d1, step1, l1, lower1, parent1) =
              climb_step-IsClimb headers genesis_bid tree top1 0 c1 k1 pos in
            let (d2, step2, l2, lower2, parent2) =
              climb_step-IsClimb headers genesis_bid tree top2 0 c2 k2 (omega arith) in
            let (f1, f2, run, m1, m2, same, keep) =
              climb_both-IsClimb fuel top1 top2 d1 d2 l1 l2 (omega arith) (omega arith) in
            (
              f1,
              f2,
              climb_both_more fuel c1 c2 d1 d2 differ step1 step2 ∙ run,
              m1,
              m2,
              same,
              λ base hb eb a1 a2.
                  let lower =
                    common_lower base hb c1.hid c2.hid c1.ha c2.ha eb k1.header k2.header level
                      differ a1 a2 in
                  keep base hb eb
                    (rw parent1 (
                      IsAncestor-parent headers genesis_bid tree base hb c1.hid c1.ha eb k1.header
                        lower a1))
                    (rw parent2 (
                      IsAncestor-parent headers genesis_bid tree base hb c2.hid c2.ha eb k2.header
                        (omega arith) a2)),
            )
      ]

  start-IsClimb :
      (bid : ℕ) (ha : BlockHeader) (floor : ℕ)
      → headers bid ≡ some ha
      → floor ≤ ha.height
      → IsClimb headers bid floor (record { hid = bid; ha = ha; path = [] })
  start-IsClimb bid ha floor e h = record { header = e; way = refl; floor_le = h }

  weaken : (top floor : ℕ) (c : Climb) → IsClimb headers top floor c → IsClimb headers top 0 c
  weaken top floor c k = record { header = k.header; way = k.way; floor_le = omega arith }

  climb_to_below :
      (fuel height : ℕ) (c : Climb) → c.ha.height ≤ height → climb_to fuel headers height c ≡ some c
  climb_to_below zero height c h = unfold climb_to in ground arith
  climb_to_below (suc fuel) height c h =
      climb_to_done headers genesis_bid tree fuel height c (ground arith)

  -- The first loop leaves a block that is not above the other one.
  climb_first :
      (fuel bid height : ℕ) (ha : BlockHeader)
      → headers bid ≡ some ha
      → ha.height ≤ fuel
      → (c : Climb) × (climb_to fuel headers height (record { hid = bid; ha = ha; path = [] })
          ≡ some c)
        × IsClimb headers bid 0 c
        × (c.ha.height ≡ min ha.height height)
        × ((base : ℕ) (hb : BlockHeader)
            → headers base ≡ some hb
            → hb.height ≤ height
            → IsAncestor headers base bid
            → IsAncestor headers base c.hid)
  climb_first fuel bid height ha e enough =
      let start : Climb = record { hid = bid; ha = ha; path = [] } in
      elim (dec_le height ha.height) [
        | yes p ↦
            let (c, run, k, level, keep) =
              climb_to-IsClimb headers genesis_bid tree fuel height bid start
                (start-IsClimb bid ha height e p) (omega arith) in
            (c, run, weaken bid height c k, omega arith, keep)
        | no p ↦ (
          start,
          climb_to_below fuel height start (omega arith),
          start-IsClimb bid ha 0 e (omega arith),
          omega arith,
          λ base hb eb le a. a,
        )
      ]

  get_common_block_run :
      (bid1 bid2 : ℕ) (h1 h2 : BlockHeader) (c1 c2 d1 d2 : Climb)
      → headers bid1 ≡ some h1
      → headers bid2 ≡ some h2
      → climb_to
          (h1.height + h2.height)
          headers
          h2.height
          (record { hid = bid1; ha = h1; path = [] })
        ≡ some c1
      → climb_to
          (h1.height + h2.height)
          headers
          c1.ha.height
          (record { hid = bid2; ha = h2; path = [] })
        ≡ some c2
      → climb_both (h1.height + h2.height) headers c1 c2 ≡ some (d1, d2)
      → get_common_block headers bid1 bid2
        ≡ some (record { common = d1.hid; chain1 = d1.path; chain2 = d2.path })
  unfolding get_common_block
  get_common_block_run bid1 bid2 h1 h2 c1 c2 d1 d2 e1 e2 run1 run2 run =
      rw (e1, e2, run1, run2, run) refl

  -- In a tree of headers the common block of two stored blocks is found: the two chains lead from
  -- the blocks down to it, and every common ancestor of the two is an ancestor of it.
  pub get_common_block-IsCommon :
      (bid1 bid2 : ℕ) (h1 h2 : BlockHeader)
      → headers bid1 ≡ some h1
      → headers bid2 ≡ some h2
      → (c : CommonBlock) × (get_common_block headers bid1 bid2 ≡ some c)
        × IsCommon headers bid1 bid2 c
  get_common_block-IsCommon bid1 bid2 h1 h2 e1 e2 =
      let fuel = h1.height + h2.height in
      let (c1, run1, k1, level1, keep1) = climb_first fuel bid1 h2.height h1 e1 (omega arith) in
      let (c2, run2, k2, level2, keep2) = climb_first fuel bid2 c1.ha.height h2 e2 (omega arith) in
      let (d1, d2, run, m1, m2, same, keep) =
        climb_both-IsClimb fuel bid1 bid2 c1 c2 k1 k2 (omega arith) (omega arith) in
      (
        record { common = d1.hid; chain1 = d1.path; chain2 = d2.path },
        get_common_block_run bid1 bid2 h1 h2 c1 c2 d1 d2 e1 e2 run1 run2 run,
        record {
          way1 = m1.way;
          way2 = rw same m2.way;
          lowest = λ base hb eb (p1, b1) (p2, b2).
              let (below1, below2) = heights base hb p1 p2 eb b1 b2 in
              keep base hb eb (keep1 base hb eb below2 (p1, b1))
                (keep2 base hb eb (omega arith) (p2, b2));
        },
      )
    where
      not_above :
          (base : ℕ) (hb : BlockHeader) (top : ℕ) (ht : BlockHeader) (path : List ℕ)
          → headers base ≡ some hb
          → headers top ≡ some ht
          → Branch headers top path base
          → hb.height ≤ ht.height
      not_above base hb top ht path eb et b = elim (ancestor_lower base hb top ht path eb et b) [
        | inl p ↦
            let e : ht ≡ hb = some_eq (sym et ∙ ap headers p ∙ eb) in
            omega (arith, ap (λ (g : BlockHeader). g.height) e)
        | inr p ↦ omega arith
      ]

      heights :
          (base : ℕ) (hb : BlockHeader) (p1 p2 : List ℕ)
          → headers base ≡ some hb
          → Branch headers bid1 p1 base
          → Branch headers bid2 p2 base
          → (hb.height ≤ h1.height) × (hb.height ≤ h2.height)
      heights base hb p1 p2 eb b1 b2 =
          (not_above base hb bid1 h1 p1 eb e1 b1, not_above base hb bid2 h2 p2 eb e2 b2)
