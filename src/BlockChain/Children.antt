-- ===== src/BlockChain/Children.antt =====
-- The counters of children and the index of tips: `check_children_counter`, `modify_children_counter`
-- and `prune_branch`. A counter that is not stored is 1, and a delta is its 32-bit pattern.
use naza.Common.{ℕ, ◌+◌, ◌-◌, ◌%◌, ◌^◌, Option, none, some}
use naza.Common.{Bool, true, false, not, ◌&&◌, ◌==◌, if◌then◌else◌}
use naza.Common.Options.{◌>>=◌, ◌>>◌, guard}
use naza.State.{put, is_some}
use naza.BlockChain.{BlockChain}

abbrev pub minus_one : ℕ
minus_one = 2 ^ 32 - 1

abbrev pub counter_of : Option ℕ → ℕ
counter_of none = 1
counter_of (some counter) = counter

abbrev pub same_bool : Bool → Bool → Bool
same_bool a b = if a then b else not b

module _ {S : Type 0} where
  unfoldable pub check_children_counter : BlockChain S → ℕ → ℕ → ℕ → Option (Unit {0})
  check_children_counter bc cd bid value =
      let counter = counter_of (bc.children bid) in
      guard (counter == value && same_bool (counter == 0) (bc.cd_tips cd bid))

  unfoldable pub modify_children_counter : BlockChain S → ℕ → ℕ → ℕ → BlockChain S
  modify_children_counter bc cd bid delta =
      let counter = (counter_of (bc.children bid) + delta) % 2 ^ 32 in
      record bc {
        children = put bc.children bid (if counter == 1 then none else some counter);
        cd_tips = put bc.cd_tips cd (put (bc.cd_tips cd) bid (counter == 0));
      }

  -- `false` for the tip of the main chain, which is not pruned.
  unfoldable pub prune_branch : BlockChain S → ℕ → ℕ → Option (Bool × BlockChain S)
  prune_branch bc cd bid = elim (bid == bc.tip_bid) [
    | true ↦ some (false, bc)
    | false ↦ check_children_counter bc cd bid 0 >> bc.headers bid >>= λ me.
        bc.headers me.previous_block_hash >>= λ pa.
        let untipped = modify_children_counter bc cd bid 1 in
        let counted =
          modify_children_counter untipped pa.cumulative_difficulty me.previous_block_hash
            minus_one in
        guard (is_some (bc.blocks bid))
        >> some (
          true,
          record counted { blocks = put bc.blocks bid none; headers = put bc.headers bid none },
        )
  ]
