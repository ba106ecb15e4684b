-- ===== src/Consensus/Standalone.antt =====
-- `check_standalone_consensus` as a whole: an accepted block keeps the rules, and fits `add_block`.
use naza.Common.Options.{some_eq}
use naza.Common.{ℕ, ◌+◌, ◌%◌, ◌^◌, Option, none, some, length}
use naza.Common.{◌≡◌, sym, ap, ◌∙◌}
use naza.Common.{Bool, true, not}
use naza.Currency.{Currency, get_block_reward}
use naza.Currency.Checkpoints.{is_in_sw_checkpoint_zone}
use naza.Block.{BlockHeader, PreparedBlock}
use naza.BlockChain.Ancestor.{Headers}
use naza.BlockChain.AddBlock.{Check}
use naza.BlockChain.AddValid.{IsFilling}
use naza.Consensus.{
  Verdict, rejects, accepts, check_transactions, Judges, check_sizes, check_template,
  check_base_transaction, check_difficulty, check_reward, check_standalone_consensus,
}
use naza.Consensus.Sound.{and_check-accepts}
use mathlib.Core.Path.{subst}
use naza.Consensus.Sized.{Kept, check_sizes-accepted}
use naza.Consensus.Accepted.{check_difficulty-accepted, check_work-accepted, check_reward-accepted}

module _ (c : Currency) (judges : Judges) where
  -- The header that the stages fill in.
  abbrev paid_header : PreparedBlock → BlockHeader → BlockHeader → ℕ → BlockHeader
  paid_header pb weighed prev_info fee =
      let own =
        get_block_reward c pb.block.header.major_version weighed.effective_size_median
          weighed.block_size prev_info.already_generated_coins fee in
      record weighed {
        base_reward =
            (get_block_reward c pb.block.header.major_version weighed.effective_size_median 0
              prev_info.already_generated_coins 0).reward;
        reward = own.reward;
        already_generated_coins =
            (prev_info.already_generated_coins + own.emission_change) % 2 ^ 64;
        already_generated_transactions =
            (prev_info.already_generated_transactions + length pb.block.transactions + 1) % 2 ^ 64;
        total_fee_amount = fee;
      }

  abbrev filled : PreparedBlock → BlockHeader → BlockHeader → ℕ → ℕ → BlockHeader
  filled pb sized prev_info difficulty fee =
      paid_header pb
        (record sized {
          difficulty = difficulty;
          cumulative_difficulty = (prev_info.cumulative_difficulty + difficulty) % 2 ^ 64;
        })
        prev_info fee

  check_standalone_consensus-Kept :
      (headers : Headers) (tip_height : ℕ) (pb : PreparedBlock) (info prev_info : BlockHeader)
      (check_pow : Bool) (h : BlockHeader)
      → check_standalone_consensus c judges headers tip_height pb info prev_info check_pow
        ≡ accepts h
      → Kept info h
  unfolding check_standalone_consensus
  check_standalone_consensus-Kept headers tip_height pb info prev_info check_pow h e =
      let check_keys = not (is_in_sw_checkpoint_zone c info.height) in
      let (sized, e1, h1) =
        and_check-accepts (check_sizes c judges headers tip_height pb info prev_info) _ e in
      let (u, e2, h2) = and_check-accepts (check_template c judges tip_height pb sized) _ h1 in
      let (miner_reward, e3, h3) =
        and_check-accepts (check_base_transaction c judges check_keys pb sized) _ h2 in
      let (weighed, e4, h4) =
        and_check-accepts (check_difficulty c judges headers tip_height sized prev_info) _ h3 in
      let (paid, e5, h5) =
        and_check-accepts (check_reward c judges pb weighed prev_info miner_reward) _ h4 in
      let (w, e6, h6) =
        and_check-accepts (check_transactions judges.key_isvalid check_keys pb.block.transactions) _
          h5 in
      let last : h ≡ paid = check_work-accepted c judges check_pow pb paid h h6 in
      let (kept, hashes, size, measured) =
        check_sizes-accepted c judges headers tip_height pb info prev_info sized e1 in
      let (difficulty, weigh, work, found) =
        check_difficulty-accepted c judges headers tip_height sized prev_info weighed e4 in
      let (fee, summed, reward, pay) =
        check_reward-accepted c judges pb weighed prev_info miner_reward paid e5 in
      let whole : h ≡ filled pb sized prev_info difficulty fee =
        last ∙ pay ∙ ap (λ (g : BlockHeader). paid_header pb g prev_info fee) weigh in
      subst (λ (g : BlockHeader). Kept info g) (sym whole) kept

  -- The check that `add_block` calls, with the proof of work.
  abbrev pub standalone_check : {S : Type 0} → Check S
  standalone_check bc pb info prev_info =
      elim (check_standalone_consensus c judges bc.headers bc.tip_height pb info prev_info true) [
        | rejects error ↦ none
        | accepts h ↦ some h
      ]

  pub standalone_check-IsFilling : {S : Type 0} → IsFilling (standalone_check {S = S})
  standalone_check-IsFilling {S = S} bc pb info prev_info h e =
      check_standalone_consensus-Kept bc.headers bc.tip_height pb info prev_info true h (
        accepted
          (check_standalone_consensus c judges bc.headers bc.tip_height pb info prev_info true) e)
    where
      accepted :
          (v : Verdict BlockHeader) {g : BlockHeader}
          → elim v as (λ x. Option BlockHeader) [ rejects error ↦ none | accepts k ↦ some k ]
            ≡ some g
          → v ≡ accepts g
      accepted (rejects error) x = cc
      accepted (accepts k) x = ap accepts (some_eq x)
