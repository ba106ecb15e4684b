-- ===== src/State/Redo/Whole.antt =====
-- Core/BlockChainState.cpp: `redo_block` of a block and its header, with the ring checker. The threads have
-- done their work where `signatures_valid` answers: then its answer is whether every signature passes.
use naza.Common.{ℕ, ◌+◌, ◌%◌, ◌^◌, List, []}
use naza.Common.{Bool, not, ◌&&◌, if◌then◌else◌}
use naza.Common.{◌∷◌}
use naza.Transaction.{Transaction}
use naza.Currency.{Currency}
use naza.Currency.Checkpoints.{is_in_sw_checkpoint_zone}
use naza.Block.{Block, BlockHeader}
use naza.State.{BlockChainState, reader}
use naza.State.Delta.{DeltaState}
use naza.State.Apply.{apply}
use naza.State.Redo.{
  RingCheck, Redone, redo_fails, redo_passes, and_redo, or_throw, input_invalid_signatures,
  redo_transactions,
}
use naza.RingChecker.{RingSignatureArg, start_work_get_error, all_pass}

-- The signatures are checked where the next height is above the checkpoint zone.
unfoldable pub check_sigs : Currency → BlockHeader → Bool
check_sigs currency info = not (is_in_sw_checkpoint_zone currency ((info.height + 1) % 2 ^ 32))

-- `DeltaState delta(info.height, info.timestamp, this)`
abbrev pub block_delta : BlockHeader → DeltaState
block_delta info = record {
  keyimages = [];
  global_amounts = [];
  spent_outputs = [];
  block_height = info.height;
  unlock_timestamp = info.timestamp;
}

-- `check_ring_signature` of a work of the queue.
abbrev pub arg_check : RingCheck → RingSignatureArg → Bool × Bool
arg_check check_ring_signature arg =
    check_ring_signature arg.tx_prefix_hash arg.key_image arg.output_keys arg.signatures

module _ (currency : Currency) (check_ring_signature : RingCheck)
    (get_transaction_prefix_hash : Transaction → ℕ) where
  -- The work of the ring checker, or its error; none where the signatures are not checked.
  unfoldable pub ring_work : BlockChainState → Block → BlockHeader → Redone (List RingSignatureArg)
  ring_work s block info =
      if check_sigs currency info
      then start_work_get_error currency (reader s) info.height info.timestamp
          get_transaction_prefix_hash block
      else redo_passes []

  -- The state and the global indices of the block's outputs.
  unfoldable pub redo_block :
      BlockChainState → Block → BlockHeader → Redone (BlockChainState × List (List ℕ))
  redo_block s block info = and_redo (ring_work s block info) (λ args.
      and_redo
        (redo_transactions currency check_ring_signature get_transaction_prefix_hash
          (block.header.base_transaction ∷ block.transactions) (block_delta info) (reader s))
        (λ r.
          if check_sigs currency info && not (all_pass (arg_check check_ring_signature) args)
          then redo_fails input_invalid_signatures 0
          else and_redo (or_throw (apply r.0 s)) (λ t. redo_passes (t, r.1))))
