-- ===== src/BlockChain/Ancestor/Climbs.antt =====
-- The loops of `get_common_block` that climb one branch.
use naza.Common.Options.{some_eq}
use naza.Common.{ℕ, zero, suc, ◌+◌, ◌≤◌, ◌<◌}
use naza.Common.{◌≡◌, refl, sym, ap, ◌∙◌, inl, inr, arith}
use naza.Common.{true, false, ltb, Bool-cases}
use naza.Common.{some, List, [], ◌∷◌, ◌++◌}
use mathlib.Core.Path.{subst}
use naza.Block.{BlockHeader}
use naza.BlockChain.Ancestor.{Headers, Climb, climb_step, climb_to, IsTree, Branch, IsAncestor}

snoc-Branch :
    (headers : Headers) (top : ℕ) (path : List ℕ) (mid : ℕ) (h : BlockHeader)
    → Branch headers top path mid
    → headers mid ≡ some h
    → 0 < h.height
    → Branch headers top (path ++ mid ∷ []) h.previous_block_hash
snoc-Branch headers top [] mid h b e pos = (sym b, h, ap headers b ∙ e, pos, refl)
snoc-Branch headers top (x ∷ path) mid h (ex, g, eg, gp, rest) e pos =
    (ex, g, eg, gp, snoc-Branch headers g.previous_block_hash path mid h rest e pos)

-- What a climb from `top` keeps: its header is that of its hash, its path is the way down, and every
-- ancestor of `top` that is not above `floor` is still below it.
pub record IsClimb (headers : Headers) (top floor : ℕ) (c : Climb) : Type 0 where
  pub header : headers c.hid ≡ some c.ha
  pub way : Branch headers top c.path c.hid
  pub floor_le : floor ≤ c.ha.height

module _ (headers : Headers) (genesis_bid : ℕ) (tree : IsTree headers genesis_bid) where
  pub climb_step-IsClimb :
      (top floor : ℕ) (c : Climb)
      → IsClimb headers top floor c
      → floor < c.ha.height
      → (d : Climb) × (climb_step headers c ≡ some d)
        × IsClimb headers top floor d
        × (d.ha.height + 1 ≡ c.ha.height)
        × (d.hid ≡ c.ha.previous_block_hash)
  unfolding climb_step
  climb_step-IsClimb top floor c k above =
      let (p, e, lower) = tree.parent c.hid c.ha k.header (omega arith) in
      (
        record { hid = c.ha.previous_block_hash; ha = p; path = c.path ++ c.hid ∷ [] },
        rw e refl,
        record {
          header = e;
          way = snoc-Branch headers top c.path c.hid c.ha k.way k.header (omega arith);
          floor_le = omega arith;
        },
        lower,
        refl,
      )

  -- An ancestor of a block at a lower height is an ancestor of its parent.
  pub IsAncestor-parent :
      (base : ℕ) (hb : BlockHeader) (top : ℕ) (ht : BlockHeader)
      → headers base ≡ some hb
      → headers top ≡ some ht
      → hb.height < ht.height
      → IsAncestor headers base top
      → IsAncestor headers base ht.previous_block_hash
  IsAncestor-parent base hb top ht eb et lower ([], same) =
      let e : hb ≡ ht = some_eq (sym eb ∙ ap headers (sym same) ∙ et) in
      absurd (omega (arith, ap (λ (h : BlockHeader). h.height) e))
  IsAncestor-parent base hb top ht eb et lower (x ∷ path, (ex, h, eh, pos, rest)) =
      let e : h ≡ ht = some_eq (sym eh ∙ et) in
      (path, subst (λ (g : BlockHeader). Branch headers g.previous_block_hash path base) e rest)

  climb_to_more :
      (fuel height : ℕ) (c d : Climb)
      → ltb height c.ha.height ≡ true
      → climb_step headers c ≡ some d
      → climb_to (suc fuel) headers height c ≡ climb_to fuel headers height d
  unfolding climb_to
  climb_to_more fuel height c d more step = grind (arith, step)

  pub climb_to_done :
      (fuel height : ℕ) (c : Climb)
      → ltb height c.ha.height ≡ false
      → climb_to (suc fuel) headers height c ≡ some c
  unfolding climb_to
  climb_to_done fuel height c done = ground arith

  pub climb_to-IsClimb :
      (fuel height top : ℕ) (c : Climb)
      → IsClimb headers top height c
      → c.ha.height ≤ height + fuel
      → (d : Climb) × (climb_to fuel headers height c ≡ some d)
        × IsClimb headers top height d
        × (d.ha.height ≡ height)
        × ((base : ℕ) (hb : BlockHeader)
            → headers base ≡ some hb
            → hb.height ≤ height
            → IsAncestor headers base c.hid
            → IsAncestor headers base d.hid)
  climb_to-IsClimb zero height top c k enough = (
    c,
    unfold climb_to in ground (arith, k.floor_le),
    k,
    omega (arith, k.floor_le),
    λ base hb e l a. a,
  )
  climb_to-IsClimb (suc fuel) height top c k enough = elim (Bool-cases (ltb height c.ha.height)) [
    | inl more ↦
        let (d, step, kd, lower, parent) = climb_step-IsClimb top height c k (ground arith) in
        let (e, run, ke, at, keep) = climb_to-IsClimb fuel height top d kd (omega arith) in
        (
          e,
          climb_to_more fuel height c d more step ∙ run,
          ke,
          at,
          λ base hb eb le a.
              keep base hb eb le
                (rw parent (IsAncestor-parent base hb c.hid c.ha eb k.header (ground arith) a)),
        )
    | inr done ↦
        (c, climb_to_done fuel height c done, k, ground (arith, k.floor_le), λ base hb e l a. a)
  ]
