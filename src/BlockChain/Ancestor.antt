-- ===== src/BlockChain/Ancestor.antt =====
-- `BlockChain::get_common_block`: the two branches are climbed down to one height, then together.
pub mod Climbs
pub mod Common
use naza.Common.{ℕ, zero, suc, ◌+◌, ◌<◌}
use naza.Common.{◌≡◌}
use naza.Common.{true, false, ltb, ◌==◌, if◌then◌else◌}
use naza.Common.{Option, none, some, List, [], ◌∷◌, ◌++◌}
use naza.Common.Options.{◌>>=◌, ◌>>◌}
use naza.Block.{BlockHeader}

abbrev pub Headers : Type 0
Headers = ℕ → Option BlockHeader

-- `hid`, its header and the chain pushed so far.
pub record Climb : Type 0 where
  pub hid : ℕ
  pub ha : BlockHeader
  pub path : List ℕ

-- `chain->push_back(hid); hid = ha.previous_block_hash; ha = read_header(hid);`
unfoldable pub climb_step : Headers → Climb → Option Climb
climb_step headers c = headers c.ha.previous_block_hash >>= λ ha.
    some (record { hid = c.ha.previous_block_hash; ha = ha; path = c.path ++ c.hid ∷ [] })

-- `while (ha1.height > ha2.height)`, with fuel.
unfoldable pub climb_to : ℕ → Headers → ℕ → Climb → Option Climb
climb_to zero headers height c = if ltb height c.ha.height then none else some c
climb_to (suc fuel) headers height c = elim (ltb height c.ha.height) [
  | true ↦ climb_step headers c >>= λ d. climb_to fuel headers height d
  | false ↦ some c
]

-- `while (hid1 != hid2)`, with fuel.
unfoldable pub climb_both : ℕ → Headers → Climb → Climb → Option (Climb × Climb)
climb_both zero headers c1 c2 = if c1.hid == c2.hid then some (c1, c2) else none
climb_both (suc fuel) headers c1 c2 = elim (c1.hid == c2.hid) [
  | true ↦ some (c1, c2)
  | false ↦
      climb_step headers c1 >>= λ d1. climb_step headers c2 >>= λ d2. climb_both fuel headers d1 d2
]

pub record CommonBlock : Type 0 where
  pub common : ℕ
  pub chain1 : List ℕ
  pub chain2 : List ℕ

-- Every loop has as many rounds as the higher of the two blocks has ancestors.
unfoldable pub get_common_block : Headers → ℕ → ℕ → Option CommonBlock
get_common_block headers bid1 bid2 = headers bid1 >>= λ ha1. headers bid2 >>= λ ha2.
    let fuel = ha1.height + ha2.height in
    climb_to fuel headers ha2.height (record { hid = bid1; ha = ha1; path = [] }) >>= λ c1.
    climb_to fuel headers c1.ha.height (record { hid = bid2; ha = ha2; path = [] }) >>= λ c2.
    climb_both fuel headers c1 c2 >>= λ c.
    some (record { common = c.0.hid; chain1 = c.0.path; chain2 = c.1.path })

-- The headers form a tree: every header is stored under its hash, a block above the height 0 has a
-- parent one lower, and the genesis block is the only one at the height 0.
pub record IsTree (headers : Headers) (genesis_bid : ℕ) : Type 0 where
  pub parent :
      (b : ℕ) (h : BlockHeader)
      → headers b ≡ some h
      → 0 < h.height
      → (p : BlockHeader) × (headers h.previous_block_hash ≡ some p) × (p.height + 1 ≡ h.height)
  pub genesis : (b : ℕ) (h : BlockHeader) → headers b ≡ some h → h.height ≡ 0 → b ≡ genesis_bid

-- `path` leads from the block `top`, which it holds, down to `base`, which it does not hold.
abbrev pub Branch : Headers → ℕ → List ℕ → ℕ → Type 0
Branch headers top [] base = top ≡ base
Branch headers top (x ∷ path) base =
    (x ≡ top)
    × (h : BlockHeader) × (headers top ≡ some h)
    × (0 < h.height)
    × Branch headers h.previous_block_hash path base

abbrev pub IsAncestor : Headers → ℕ → ℕ → Type 0
IsAncestor headers base top = (path : List ℕ) × Branch headers top path base

-- What `get_common_block` promises.
pub record IsCommon (headers : Headers) (bid1 bid2 : ℕ) (c : CommonBlock) : Type 0 where
  pub way1 : Branch headers bid1 c.chain1 c.common
  pub way2 : Branch headers bid2 c.chain2 c.common
  pub lowest :
      (base : ℕ) (hb : BlockHeader)
      → headers base ≡ some hb
      → IsAncestor headers base bid1
      → IsAncestor headers base bid2
      → IsAncestor headers base c.common
