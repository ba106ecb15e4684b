-- ===== src/Consensus/Sized.antt =====
-- `check_sizes`: the sizes and the medians in the header of an accepted block.
use Prim.Native.Nat.{max}
use naza.Common.{ℕ, ◌+◌, ◌%◌, ◌^◌, ◌≤◌, map, length, All}
use naza.Common.{◌≡◌, refl, sym, ap, ◌∙◌, inl, inr, arith}
use naza.Common.Options.{Option-cases, some_eq}
use naza.Common.{List, Option, none, some, if◌then◌else◌}
use naza.Median.{median_value}
use naza.BlockChain.Segment.{get_tip_segment}
use naza.BlockChain.StoreBlock.{none-some}
use naza.Currency.{get_timestamp_check_window}
use mathlib.Core.Path.{subst}
use naza.Common.{true, false, ◌&&◌, leb, ◌==◌}
use naza.Currency.{
  Currency, block_granted_full_reward_zone_by_block_version, max_transaction_allowed_size,
  max_block_cumulative_size,
}
use naza.Block.{BlockHeader, PreparedBlock}
use naza.BlockChain.Ancestor.{Headers}
use naza.Consensus.{
  wrong_transactions_count, cumulative_block_size_too_big, accepts, or_exception,
  check_raw_transactions, Judges, check_sizes, calculate_consensus_values,
}
use naza.Consensus.Sound.{
  accepts_eq, and_check-accepts, ensure-accepts, check_raw_transactions-hashes, total_size,
}

-- The fields that the checks do not change.
abbrev pub Kept : BlockHeader → BlockHeader → Type 0
Kept h g =
    (g.hash ≡ h.hash) × (g.previous_block_hash ≡ h.previous_block_hash) × (g.height ≡ h.height)

-- What `check_sizes` fills in: the sizes and the medians of the blocks up to the parent.
pub record IsSized (c : Currency) (headers : Headers) (tip_height : ℕ) (pb : PreparedBlock)
    (prev_info h : BlockHeader) : Type 0 where
  -- The size of the coinbase and the transactions, each of them within the limit.
  pub block_size :
      h.block_size ≡ (pb.coinbase_tx_size + total_size pb.raw_transaction_sizes) % 2 ^ 32
  pub transactions_size :
      h.transactions_cumulative_size ≡ total_size pb.raw_transaction_sizes % 2 ^ 32
  pub allowed :
      All
        (λ (n : ℕ). n ≤ max_transaction_allowed_size c h.effective_size_median)
        pb.raw_transaction_sizes
  -- The median of the sizes of the last blocks up to the parent.
  pub sized : List BlockHeader
  pub sized_segment : get_tip_segment headers prev_info c.reward_blocks_window true ≡ some sized
  pub size_median : h.size_median ≡ median_value 32 (map (λ (g : BlockHeader). g.block_size) sized)
  -- The median of the times of the last blocks, or 0 where there are less than the window.
  pub timed : List BlockHeader
  pub timed_segment :
      get_tip_segment headers prev_info
        (get_timestamp_check_window c ((tip_height + 1) % 2 ^ 32))
        false
      ≡ some timed
  pub timestamp_median : h.timestamp_median ≡ (
      if leb (get_timestamp_check_window c ((tip_height + 1) % 2 ^ 32)) (length timed)
      then median_value 32 (map (λ (g : BlockHeader). g.timestamp) timed)
      else 0)
  pub effective :
      h.effective_size_median
      ≡ max h.size_median
          (block_granted_full_reward_zone_by_block_version c pb.block.header.major_version)

calculate_consensus_values-medians :
    (c : Currency) (headers : Headers) (tip_height : ℕ) (prev_info : BlockHeader) (values : ℕ × ℕ)
    → calculate_consensus_values c headers tip_height prev_info ≡ some values
    → (sized : List BlockHeader) × (get_tip_segment headers prev_info c.reward_blocks_window true
        ≡ some sized)
      × (values.0 ≡ median_value 32 (map (λ (g : BlockHeader). g.block_size) sized))
      × (timed : List BlockHeader) × (get_tip_segment headers prev_info
            (get_timestamp_check_window c ((tip_height + 1) % 2 ^ 32))
            false
          ≡ some timed)
      × (values.1 ≡ (
          if leb (get_timestamp_check_window c ((tip_height + 1) % 2 ^ 32)) (length timed)
          then median_value 32 (map (λ (g : BlockHeader). g.timestamp) timed)
          else 0))
unfolding calculate_consensus_values
calculate_consensus_values-medians c headers tip_height prev_info values h =
    let window = get_timestamp_check_window c ((tip_height + 1) % 2 ^ 32) in
    elim (Option-cases (get_tip_segment headers prev_info c.reward_blocks_window true)) [
      | inl nowhere ↦ absurd (none-some (sym (grind (arith, nowhere)) ∙ h))
      | inr (sized, e1) ↦ elim (Option-cases (get_tip_segment headers prev_info window false)) [
        | inl nowhere ↦ absurd (none-some (sym (grind (arith, e1, nowhere)) ∙ h))
        | inr (timed, e2) ↦
            let same : (
              median_value 32 (map (λ (g : BlockHeader). g.block_size) sized),
              (if leb window (length timed)
                  then median_value 32 (map (λ (g : BlockHeader). g.timestamp) timed)
                  else 0),
            )
                ≡ values =
              some_eq (sym (rw (calculate_consensus_values, e1, e2) refl) ∙ h) in
            (
              sized,
              e1,
              ap (λ (v : ℕ × ℕ). v.0) (sym same),
              timed,
              e2,
              ap (λ (v : ℕ × ℕ). v.1) (sym same),
            )
      ]
    ]

pub or_exception-accepts :
    {A : Type 0} (o : Option A) {a : A} → or_exception o ≡ accepts a → o ≡ some a
or_exception-accepts none h = cc
or_exception-accepts (some value) h = ap some (accepts_eq h)

module _ (c : Currency) (judges : Judges) where
  pub check_sizes-accepted :
      (headers : Headers) (tip_height : ℕ) (pb : PreparedBlock) (info prev_info h : BlockHeader)
      → check_sizes c judges headers tip_height pb info prev_info ≡ accepts h
      → Kept info h
        × (map judges.get_transaction_hash pb.block.transactions
            ≡ pb.block.header.transaction_hashes)
        × (h.block_size ≤ max_block_cumulative_size c h.height)
        × IsSized c headers tip_height pb prev_info h
  unfolding check_sizes
  check_sizes-accepted headers tip_height pb info prev_info h e =
      let header = pb.block.header in
      let n = length pb.block.transactions in
      let (counts, h1) =
        ensure-accepts
          (n == length header.transaction_hashes && n == length pb.raw_transaction_sizes)
          wrong_transactions_count _ e in
      let medians = or_exception (calculate_consensus_values c headers tip_height prev_info) in
      let (values, h2, h3) = and_check-accepts medians _ h1 in
      let (sized, sized_segment, size_median, timed, timed_segment, timestamp_median) =
        calculate_consensus_values-medians c headers tip_height prev_info values
          (or_exception-accepts _ h2) in
      let effective =
        max values.0 (block_granted_full_reward_zone_by_block_version c header.major_version) in
      let raw =
        check_raw_transactions judges.get_transaction_hash
          (max_transaction_allowed_size c effective) pb.block.transactions header.transaction_hashes
          pb.raw_transaction_sizes 0 in
      let (total, h4, h5) = and_check-accepts raw _ h3 in
      let size = (pb.coinbase_tx_size + total) % 2 ^ 32 in
      let (small, h6) =
        ensure-accepts (leb size (max_block_cumulative_size c info.height))
          cumulative_block_size_too_big _ h5 in
      let filled : BlockHeader = record info {
        size_median = values.0;
        timestamp_median = values.1;
        effective_size_median = effective;
        block_size = size;
        transactions_cumulative_size = total % 2 ^ 32;
      } in
      let same : h ≡ filled = sym (accepts_eq h6) in
      let (hashes, bounded, whole) =
        check_raw_transactions-hashes judges.get_transaction_hash
          (max_transaction_allowed_size c effective) pb.block.transactions header.transaction_hashes
          pb.raw_transaction_sizes 0 (ground (arith, counts)) (ground (arith, counts)) h4 in
      let sum : total ≡ total_size pb.raw_transaction_sizes = omega (arith, whole) in
      let bound : size ≤ max_block_cumulative_size c info.height = ground (arith, small) in
      (
        (
          ap (λ (g : BlockHeader). g.hash) same,
          ap (λ (g : BlockHeader). g.previous_block_hash) same,
          ap (λ (g : BlockHeader). g.height) same,
        ),
        hashes,
        omega (
          arith,
          bound,
          ap (λ (g : BlockHeader). g.block_size) same,
          ap (λ (g : BlockHeader). max_block_cumulative_size c g.height) same,
        ),
        subst (IsSized c headers tip_height pb prev_info) (sym same) (record {
          block_size = ap (λ (n : ℕ). (pb.coinbase_tx_size + n) % 2 ^ 32) sum;
          transactions_size = ap (λ (n : ℕ). n % 2 ^ 32) sum;
          allowed = bounded;
          sized = sized;
          sized_segment = sized_segment;
          size_median = size_median;
          timed = timed;
          timed_segment = timed_segment;
          timestamp_median = timestamp_median;
          effective = refl;
        }),
      )
