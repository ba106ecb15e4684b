-- ===== src/BlockChain/Valid.antt =====
-- The invariant of the tree and its main chain: the tip is where the chain ends, and the state is what
-- redoing the blocks of the chain makes of the state after the genesis block.
use naza.Common.Options.{some_eq}
use naza.Common.{ℕ, zero, suc, ◌+◌, ◌-◌, ◌%◌, ◌^◌, ◌≤◌, ◌<◌}
use naza.Common.{◌≡◌, refl, sym, ap, ◌∙◌, ◌≢◌, arith}
use naza.Common.{true, false, ◌==◌}
use naza.Common.{none, some}
use mathlib.Core.Path.{subst}
use naza.Block.{Block, BlockHeader}
use naza.State.{put}
use naza.State.Redo.{redo_passes}
use naza.State.Store.{put_eq, put_ne}
use naza.BlockChain.{IBlockState, BlockChain, in_chain, push_chain, pop_chain}
use naza.BlockChain.Ancestor.{IsTree}

module _ {S : Type 0} where
  -- What the counters of children and the index of tips are, and the genesis block.
  abbrev pub Kept : BlockChain S → BlockChain S → Type 0
  Kept bc bd =
      (bd.genesis_bid ≡ bc.genesis_bid) × (bd.children ≡ bc.children) × (bd.cd_tips ≡ bc.cd_tips)

  abbrev pub Kept-trans : (bc bd be : BlockChain S) → Kept bc bd → Kept bd be → Kept bc be
  Kept-trans bc bd be (g, c, t) (g', c', t') = (g' ∙ g, c' ∙ c, t' ∙ t)

module _ {S : Type 0} (ops : IBlockState S) (genesis_state : S) where
  -- The chain up to a height ends in `b`, and redoing its blocks ends in `s`.
  abbrev pub Replay : BlockChain S → ℕ → ℕ → S → Type 0
  Replay bc zero b s = (bc.chain 0 ≡ some b) × (s ≡ genesis_state)
  Replay bc (suc n) b s =
      (bc.chain (suc n) ≡ some b)
      × (k : Block) × (bc.blocks b ≡ some k)
      × (h : BlockHeader) × (bc.headers b ≡ some h)
      × (h.height ≡ suc n)
      × (r : S) × (ops.redo_block r b k h ≡ redo_passes s)
      × Replay bc n h.previous_block_hash r

  -- The same, where `undo_block` gives back the state before each of the blocks above the genesis block.
  abbrev pub Undoable : BlockChain S → ℕ → ℕ → S → Type 0
  Undoable bc zero b s = (bc.chain 0 ≡ some b) × (s ≡ genesis_state)
  Undoable bc (suc n) b s =
      (bc.chain (suc n) ≡ some b)
      × (k : Block) × (bc.blocks b ≡ some k)
      × (h : BlockHeader) × (bc.headers b ≡ some h)
      × (h.height ≡ suc n)
      × (r : S) × (ops.redo_block r b k h ≡ redo_passes s)
      × (ops.undo_block s b k (suc n) ≡ some r)
      × Undoable bc n h.previous_block_hash r

  -- The main chain can be undone to the genesis block.
  abbrev pub IsUndoable : BlockChain S → Type 0
  IsUndoable bc = Undoable bc bc.tip_height bc.tip_bid bc.state

  pub record IsValid (bc : BlockChain S) : Type 0 where
    pub tree : IsTree bc.headers bc.genesis_bid
    pub hashed :
        (b : ℕ) (h : BlockHeader) → bc.headers b ≡ some h → (h.hash ≡ b) × (h.height < 2 ^ 32)
    pub parented :
        (b : ℕ) (h : BlockHeader) (k : Block)
        → bc.headers b ≡ some h
        → bc.blocks b ≡ some k
        → k.header.previous_block_hash ≡ h.previous_block_hash
    pub tip_header : BlockHeader
    pub tip_stored : bc.headers bc.tip_bid ≡ some tip_header
    pub tip_level : tip_header.height ≡ bc.tip_height
    pub tip_difficulty : tip_header.cumulative_difficulty ≡ bc.tip_cumulative_difficulty
    pub above : (n : ℕ) → bc.tip_height < n → bc.chain n ≡ none
    pub replay : Replay bc bc.tip_height bc.tip_bid bc.state

  -- The replay of a chain only reads the chain up to its height, and what is stored stays.
  pub Replay-mono :
      (bc bd : BlockChain S) (n b : ℕ) (s : S)
      → ((m : ℕ) → m ≤ n → bd.chain m ≡ bc.chain m)
      → ((x : ℕ) (h : BlockHeader) → bc.headers x ≡ some h → bd.headers x ≡ some h)
      → ((x : ℕ) (k : Block) → bc.blocks x ≡ some k → bd.blocks x ≡ some k)
      → Replay bc n b s
      → Replay bd n b s
  Replay-mono bc bd zero b s same headers blocks (e, start) = (same 0 (omega arith) ∙ e, start)
  Replay-mono bc bd (suc n) b s same headers blocks (e, k, ek, h, eh, level, r, redone, rest) = (
    same (suc n) (omega arith) ∙ e,
    k,
    blocks b k ek,
    h,
    headers b h eh,
    level,
    r,
    redone,
    Replay-mono bc bd n h.previous_block_hash r (λ m p. same m (omega arith)) headers blocks rest,
  )

  pub Undoable-mono :
      (bc bd : BlockChain S) (n b : ℕ) (s : S)
      → ((m : ℕ) → m ≤ n → bd.chain m ≡ bc.chain m)
      → ((x : ℕ) (h : BlockHeader) → bc.headers x ≡ some h → bd.headers x ≡ some h)
      → ((x : ℕ) (k : Block) → bc.blocks x ≡ some k → bd.blocks x ≡ some k)
      → Undoable bc n b s
      → Undoable bd n b s
  Undoable-mono bc bd zero b s same headers blocks (e, start) = (same 0 (omega arith) ∙ e, start)
  Undoable-mono bc bd (suc n) b s same headers blocks
        (e, k, ek, h, eh, level, r, redone, undone, rest) =
      (
        same (suc n) (omega arith) ∙ e,
        k,
        blocks b k ek,
        h,
        headers b h eh,
        level,
        r,
        redone,
        undone,
        Undoable-mono bc bd n h.previous_block_hash r (λ m p. same m (omega arith)) headers blocks
            rest,
      )

  Undoable-Replay : (bc : BlockChain S) (n b : ℕ) (s : S) → Undoable bc n b s → Replay bc n b s
  Undoable-Replay bc zero b s u = u
  Undoable-Replay bc (suc n) b s (e, k, ek, h, eh, level, r, redone, undone, rest) =
      (e, k, ek, h, eh, level, r, redone, Undoable-Replay bc n h.previous_block_hash r rest)

  -- The replay ends where the chain does.
  pub Replay-tip : (bc : BlockChain S) (n b : ℕ) (s : S) → Replay bc n b s → bc.chain n ≡ some b
  Replay-tip bc zero b s r = r.0
  Replay-tip bc (suc n) b s r = r.0

  -- A block whose parent is the tip can be pushed.
  pub push_chain-IsValid :
      (bc : BlockChain S) (b : ℕ) (k : Block) (h : BlockHeader) (s : S)
      → IsValid bc
      → bc.headers b ≡ some h
      → bc.blocks b ≡ some k
      → 0 < h.height
      → h.previous_block_hash ≡ bc.tip_bid
      → ops.redo_block bc.state b k h ≡ redo_passes s
      → (bd : BlockChain S) × (push_chain bc h s ≡ some bd)
        × IsValid bd
        × (bd.tip_bid ≡ b)
        × (bd.headers ≡ bc.headers)
        × (bd.blocks ≡ bc.blocks)
        × Kept bc bd
  push_chain-IsValid bc b k h s v eh ek pos prev redone =
      let (same_hash, word) = v.hashed b h eh in
      let (p, ep, lower) = v.tree.parent b h eh pos in
      let same : p ≡ v.tip_header = some_eq (sym ep ∙ ap bc.headers prev ∙ v.tip_stored) in
      let level : h.height ≡ suc bc.tip_height =
        omega (arith, v.tip_level, ap (λ (g : BlockHeader). g.height) same) in
      let height : (bc.tip_height + 1) % 2 ^ 32 ≡ suc bc.tip_height = omega arith in
      let free : bc.chain (suc bc.tip_height) ≡ none = v.above (suc bc.tip_height) (omega arith) in
      let bd : BlockChain S = record bc {
        chain = put bc.chain (suc bc.tip_height) (some h.hash);
        tip_bid = h.hash;
        tip_height = suc bc.tip_height;
        tip_cumulative_difficulty = h.cumulative_difficulty;
        state = s;
      } in
      let below : (m : ℕ) → m ≤ bc.tip_height → bd.chain m ≡ bc.chain m =
        λ m le. put_ne bc.chain (suc bc.tip_height) (some h.hash) m (ne m bc.tip_height le) in
      (
        bd,
        unfold push_chain in rw (height, free) refl,
        record {
          tree = v.tree;
          hashed = v.hashed;
          parented = v.parented;
          tip_header = h;
          tip_stored = ap bc.headers same_hash ∙ eh;
          tip_level = level;
          tip_difficulty = refl;
          above = λ n gt.
              put_ne bc.chain (suc bc.tip_height) (some h.hash) n (beyond n (suc bc.tip_height) gt)
              ∙ v.above n (omega arith);
          replay = (
            put_eq bc.chain (suc bc.tip_height) (some h.hash) (suc bc.tip_height) refl,
            k,
            ap bc.blocks same_hash ∙ ek,
            h,
            ap bc.headers same_hash ∙ eh,
            level,
            bc.state,
            ap (λ (x : ℕ). ops.redo_block bc.state x k h) same_hash ∙ redone,
            rw prev (
                Replay-mono bc bd bc.tip_height bc.tip_bid bc.state below (λ x g e. e) (λ x g e. e)
                  v.replay),
          );
        },
        same_hash,
        refl,
        refl,
        (refl, refl, refl),
      )
    where
      ne : (m n : ℕ) → m ≤ n → m ≢ suc n
      ne m n le e = omega arith

      beyond : (n t : ℕ) → t < n → n ≢ t
      beyond n t gt e = omega arith

  in_chain-stored : (bc : BlockChain S) (n b : ℕ) → bc.chain n ≡ some b → in_chain bc n b ≡ true
  unfolding in_chain
  in_chain-stored bc n b e = ground (arith, e)

  pop_chain-run :
      (bc : BlockChain S) (tip new_tip_bid : ℕ) (p : BlockHeader) (s : S)
      → (bc.tip_height == 0) ≡ false
      → bc.chain bc.tip_height ≡ some tip
      → bc.chain (bc.tip_height - 1) ≡ some new_tip_bid
      → bc.headers new_tip_bid ≡ some p
      → pop_chain bc new_tip_bid s
        ≡ some (record bc {
          chain = put bc.chain bc.tip_height none;
          tip_bid = new_tip_bid;
          tip_height = bc.tip_height - 1;
          tip_cumulative_difficulty = p.cumulative_difficulty;
          state = s;
        })
  unfolding pop_chain
  pop_chain-run bc tip new_tip_bid p s nonzero stored next ep =
      rw (nonzero, stored, in_chain-stored bc (bc.tip_height - 1) new_tip_bid next, ep) refl

  -- The tip of a chain that is longer than the genesis block can be undone and popped.
  pub pop_chain-IsValid :
      (bc : BlockChain S)
      → IsUndoable bc
      → IsValid bc
      → 0 < bc.tip_height
      → (k : Block) × (bc.blocks bc.tip_bid ≡ some k)
        × (s : S) × (ops.undo_block bc.state bc.tip_bid k bc.tip_height ≡ some s)
        × (bd : BlockChain S) × (pop_chain bc k.header.previous_block_hash s ≡ some bd)
        × IsValid bd
        × IsUndoable bd
        × (h : BlockHeader) × (bc.headers bc.tip_bid ≡ some h)
        × (bd.tip_bid ≡ h.previous_block_hash)
        × (suc bd.tip_height ≡ bc.tip_height)
        × (bd.headers ≡ bc.headers)
        × (bd.blocks ≡ bc.blocks)
        × Kept bc bd
  pop_chain-IsValid bc undoable v pos =
      let n = bc.tip_height - 1 in
      let top : bc.tip_height ≡ suc n = omega arith in
      let (e, k, ek, h, eh, level, r, redone, gone, rest) =
        subst (λ (t : ℕ). Undoable bc t bc.tip_bid bc.state) top undoable in
      let prev : k.header.previous_block_hash ≡ h.previous_block_hash =
        v.parented bc.tip_bid h k eh ek in
      let (p, ep, lower) = v.tree.parent bc.tip_bid h eh (omega arith) in
      let undone : ops.undo_block bc.state bc.tip_bid k bc.tip_height ≡ some r =
        ap (λ (t : ℕ). ops.undo_block bc.state bc.tip_bid k t) top ∙ gone in
      let bd : BlockChain S = record bc {
        chain = put bc.chain bc.tip_height none;
        tip_bid = h.previous_block_hash;
        tip_height = n;
        tip_cumulative_difficulty = p.cumulative_difficulty;
        state = r;
      } in
      let below : (m : ℕ) → m ≤ n → bd.chain m ≡ bc.chain m =
        λ m le. put_ne bc.chain bc.tip_height none m (lower_ne m bc.tip_height n le top) in
      let replayed = Undoable-Replay bc n h.previous_block_hash r rest in
      let nonzero : (bc.tip_height == 0) ≡ false = ground arith in
      let stored : bc.chain bc.tip_height ≡ some bc.tip_bid =
        Replay-tip bc bc.tip_height bc.tip_bid bc.state v.replay in
      let next : bc.chain n ≡ some h.previous_block_hash =
        Replay-tip bc n h.previous_block_hash r replayed in
      (
        k,
        ek,
        r,
        undone,
        bd,
        ap (λ (x : ℕ). pop_chain bc x r) prev
            ∙ pop_chain-run bc bc.tip_bid h.previous_block_hash p r nonzero stored next ep,
        record {
          tree = v.tree;
          hashed = v.hashed;
          parented = v.parented;
          tip_header = p;
          tip_stored = ep;
          tip_level = omega arith;
          tip_difficulty = refl;
          above = λ m gt. cut m gt;
          replay =
              Replay-mono bc bd n h.previous_block_hash r below (λ x g e. e) (λ x g e. e) replayed;
        },
        Undoable-mono bc bd n h.previous_block_hash r below (λ x g e. e) (λ x g e. e) rest,
        h,
        eh,
        refl,
        sym top,
        refl,
        refl,
        (refl, refl, refl),
      )
    where
      lower_ne : (m t n : ℕ) → m ≤ n → t ≡ suc n → m ≢ t
      lower_ne m t n le e f = omega arith

      cut : (m : ℕ) → bc.tip_height - 1 < m → put bc.chain bc.tip_height none m ≡ none
      cut m gt = ground (arith, v.above m)
