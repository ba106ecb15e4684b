-- ===== src/BlockChain/Landing.antt =====
-- The climb of `get_sync_headers_chain` from a block down to the main chain.
use native.Mathlib.Decide.{dec_le}
use naza.Common.{ℕ, zero, suc, ◌≤◌, ◌<◌}
use naza.Common.{◌≡◌, refl, sym, ap, ◌∙◌, inl, inr, arith}
use naza.Common.{Bool, true, false, ◌||◌, ◌==◌, Bool-cases}
use naza.Common.{Option, none, some, [], ◌∷◌}
use naza.Block.{BlockHeader}
use naza.BlockChain.{IBlockState, BlockChain, in_chain}
use naza.BlockChain.Ancestor.{IsTree, IsAncestor}
use naza.BlockChain.Valid.{Replay, IsValid}
use naza.BlockChain.Locator.{climb_to_chain}

module _ {S : Type 0} (ops : IBlockState S) (genesis_state : S) where
  pub Replay-filled :
      (bc : BlockChain S) (n b : ℕ) (s : S)
      → Replay ops genesis_state bc n b s
      → (m : ℕ) → m ≤ n
      → (c : ℕ) × (bc.chain m ≡ some c)
  Replay-filled bc zero b s (e, start) m le = (b, ap bc.chain (omega arith) ∙ e)
  Replay-filled bc (suc n) b s (e, k, ek, h, eh, level, r, redone, rest) m le = elim (dec_le m n) [
    | yes below ↦ Replay-filled bc n h.previous_block_hash r rest m below
    | no above ↦ (b, ap bc.chain (omega arith) ∙ e)
  ]

  pub Replay-genesis :
      (bc : BlockChain S) (n b : ℕ) (s : S) (h : BlockHeader)
      → IsTree bc.headers bc.genesis_bid
      → bc.headers b ≡ some h
      → h.height ≡ n
      → Replay ops genesis_state bc n b s
      → bc.chain 0 ≡ some bc.genesis_bid
  Replay-genesis bc zero b s h tree eh level (e, start) = e ∙ ap some (tree.genesis b h eh level)
  Replay-genesis bc (suc n) b s h tree eh level (e, k, ek, g, eg, level', r, redone, rest) =
      let (p, ep, lower) = tree.parent b g eg (omega arith) in
      Replay-genesis bc n g.previous_block_hash r p tree ep (omega arith) rest

  in_chain-eq : (bc : BlockChain S) (n b : ℕ) → in_chain bc n b ≡ true → bc.chain n ≡ some b
  unfolding in_chain
  in_chain-eq bc n b e = found (bc.chain n) e
    where
      found :
          (o : Option ℕ)
          → (elim o as (λ x. Bool) [ none ↦ false | some ha ↦ ha == b ]) ≡ true
          → o ≡ some b
      found none e = absurd (ground arith)
      found (some ha) e = ap some (ground arith)

  climb_to_chain_done :
      (fuel : ℕ) (bc : BlockChain S) (h : BlockHeader)
      → ((h.height == 0) || in_chain bc h.height h.hash) ≡ true
      → climb_to_chain fuel bc h ≡ some h
  unfolding climb_to_chain
  climb_to_chain_done zero bc h done = rw done refl
  climb_to_chain_done (suc fuel) bc h done = elim (Bool-cases (h.height == 0)) [
    | inl low ↦ grind (arith, low)
    | inr high ↦
        let hit : in_chain bc h.height h.hash ≡ true = ground (arith, high, done) in
        grind (arith, high, hit)
  ]

  climb_to_chain_more :
      (fuel : ℕ) (bc : BlockChain S) (h p : BlockHeader)
      → (h.height == 0) ≡ false
      → in_chain bc h.height h.hash ≡ false
      → bc.headers h.previous_block_hash ≡ some p
      → climb_to_chain (suc fuel) bc h ≡ climb_to_chain fuel bc p
  unfolding climb_to_chain
  climb_to_chain_more fuel bc h p high miss step = grind (arith, high, miss, step)

  -- Where a climb ends.
  abbrev pub Landed : BlockChain S → BlockHeader → ℕ → Type 0
  Landed bc p bid =
      (bc.chain p.height ≡ some p.hash)
      × (bc.headers p.hash ≡ some p)
      × IsAncestor bc.headers p.hash bid

  climb_to_chain_stop :
      (bid : ℕ) (bc : BlockChain S) (h : BlockHeader)
      → IsValid ops genesis_state bc
      → bc.headers bid ≡ some h
      → ((h.height == 0) || in_chain bc h.height h.hash) ≡ true
      → Landed bc h bid
  climb_to_chain_stop bid bc h v e done =
      let own : h.hash ≡ bid = (v.hashed bid h e).0 in
      (on_chain, ap bc.headers own ∙ e, ([], sym own))
    where
      on_chain : bc.chain h.height ≡ some h.hash
      on_chain = elim (Bool-cases (h.height == 0)) [
        | inl low ↦
            let at : h.height ≡ 0 = ground arith in
            ap bc.chain at
            ∙ Replay-genesis bc bc.tip_height bc.tip_bid bc.state v.tip_header v.tree v.tip_stored
                v.tip_level v.replay
            ∙ ap some (sym (v.tree.genesis bid h e at) ∙ sym (v.hashed bid h e).0)
        | inr high ↦ in_chain-eq bc h.height h.hash (ground (arith, high, done))
      ]

  -- The climb ends in a block of the main chain that is an ancestor.
  pub climb_to_chain_lem :
      (fuel bid : ℕ) (bc : BlockChain S) (h : BlockHeader)
      → IsValid ops genesis_state bc
      → bc.headers bid ≡ some h
      → h.height ≤ fuel
      → (p : BlockHeader) × (climb_to_chain fuel bc h ≡ some p) × Landed bc p bid
  climb_to_chain_lem zero bid bc h v e enough =
      let low : ((h.height == 0) || in_chain bc h.height h.hash) ≡ true = ground arith in
      (h, climb_to_chain_done zero bc h low, climb_to_chain_stop bid bc h v e low)
  climb_to_chain_lem (suc fuel) bid bc h v e enough =
      elim (Bool-cases ((h.height == 0) || in_chain bc h.height h.hash)) [
        | inl done ↦
            (h, climb_to_chain_done (suc fuel) bc h done, climb_to_chain_stop bid bc h v e done)
        | inr miss ↦
            let high : (h.height == 0) ≡ false =
              or_left (h.height == 0) (in_chain bc h.height h.hash) miss in
            let off : in_chain bc h.height h.hash ≡ false =
              or_right (h.height == 0) (in_chain bc h.height h.hash) miss in
            let pos : 0 < h.height = ground arith in
            let (p, ep, lower) = v.tree.parent bid h e pos in
            let (q, run, (on, stored, (path, way))) =
              climb_to_chain_lem fuel h.previous_block_hash bc p v ep (omega arith) in
            (
              q,
              climb_to_chain_more fuel bc h p high off ep ∙ run,
              (on, stored, (bid ∷ path, (refl, h, e, pos, way))),
            )
      ]
    where
      or_left : (a b : Bool) → (a || b) ≡ false → a ≡ false
      or_left true b e = e
      or_left false b e = refl

      or_right : (a b : Bool) → (a || b) ≡ false → b ≡ false
      or_right true b e = cc
      or_right false b e = e
