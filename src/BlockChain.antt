-- ===== src/BlockChain.antt =====
-- Core/BlockChain.cpp: the tree of blocks and the main chain in it. The prefixes of the database are
-- maps: headers and blocks by hash, hashes by height, counters of children by hash, and the index of
-- tips by cumulative difficulty and hash. The header cache and the window of the last headers,
-- which repeat headers of the database, are left out. `none` stands for an exception.
--
-- What the derived class keeps is a state `S`, and `redo_block` and `undo_block` act on it.
pub mod Ancestor
pub mod Valid
pub mod Undo
pub mod Redo
pub mod Reorganize
pub mod Switch
pub mod Locator
pub mod Landing
pub mod Sync
pub mod Sparse
pub mod Segment
pub mod Children
pub mod AddBlock
pub mod StoreBlock
pub mod Added
pub mod AddValid
pub mod Derived
mod Tests
use naza.Common.{ℕ, ◌+◌, ◌-◌, ◌%◌, ◌^◌, [], Option, none, some}
use naza.Common.{Bool, false, not, ◌==◌}
use naza.Common.Options.{◌>>=◌, ◌>>◌, guard}
use naza.Block.{Block, BlockHeader}
use naza.State.{put, is_some}
use naza.State.Redo.{Redone}

-- `redo_block` throws, fails where the code returns false, or passes; `undo_block` answers `none` where it
-- throws.
pub record IBlockState (S : Type 0) : Type 0 where
  pub redo_block : S → ℕ → Block → BlockHeader → Redone S
  pub undo_block : S → ℕ → Block → ℕ → Option S

pub record BlockChain (S : Type 0) : Type 0 where
  pub genesis_bid : ℕ
  pub headers : ℕ → Option BlockHeader
  pub blocks : ℕ → Option Block
  pub chain : ℕ → Option ℕ
  pub children : ℕ → Option ℕ
  pub cd_tips : ℕ → ℕ → Bool
  pub tip_bid : ℕ
  pub tip_height : ℕ
  pub tip_cumulative_difficulty : ℕ
  pub state : S

module _ {S : Type 0} where
  unfoldable pub in_chain : BlockChain S → ℕ → ℕ → Bool
  in_chain bc height bid = elim (bc.chain height) [ none ↦ false | some ha ↦ ha == bid ]

  -- The derived state is what `tip_changed` and `redo_block` leave.
  unfoldable pub push_chain : BlockChain S → BlockHeader → S → Option (BlockChain S)
  push_chain bc header state =
      let height = (bc.tip_height + 1) % 2 ^ 32 in
      guard (not (is_some (bc.chain height)))
      >> some (record bc {
        chain = put bc.chain height (some header.hash);
        tip_bid = header.hash;
        tip_height = height;
        tip_cumulative_difficulty = header.cumulative_difficulty;
        state = state;
      })

  unfoldable pub pop_chain : BlockChain S → ℕ → S → Option (BlockChain S)
  unfolding in_chain
  pop_chain bc new_tip_bid state =
      guard (not (bc.tip_height == 0))
      >> guard (is_some (bc.chain bc.tip_height))
      >> guard (in_chain bc (bc.tip_height - 1) new_tip_bid)
      >> bc.headers new_tip_bid
      >>= λ tip_header. some (record bc {
        chain = put bc.chain bc.tip_height none;
        tip_bid = new_tip_bid;
        tip_height = bc.tip_height - 1;
        tip_cumulative_difficulty = tip_header.cumulative_difficulty;
        state = state;
      })
