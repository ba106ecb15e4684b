-- ===== src/Currency/Tests.antt =====
-- Runs of the coin's rules with the parameters of the main network, and the theorems about rewards
-- at concrete sizes.
use naza.Common.{◌+◌, ◌-◌, ◌*◌, ◌/◌, ◌%◌, ◌^◌, ◌≤◌, ◌<◌}
use naza.Common.{◌≡◌, refl, arith}
use naza.Common.{true, false}
use naza.Words.{mul128, div128_32, div_with_reminder}
use naza.Currency.{
  Currency, make_currency, calc_base_reward, get_penalized_amount, get_block_reward,
}
use naza.Currency.{is_transaction_spend_time_unlocked}
use naza.Currency.NextDifficulty.{next_difficulty_v1, scaled_work, total_work, time_span}
use naza.Common.{ℕ, List, [], ◌∷◌, ◌-◌}
use naza.Currency.Reward.{
  get_penalized_amount_exact, IsBlock, reward-emission_change, supply_bounded,
}

abbrev coin : Currency
coin = make_currency false

-- The first reward of the main network, in block version 1.
first_reward : calc_base_reward coin 1 0 ≡ 281474976710655
unfolding calc_base_reward
first_reward = refl

get_penalized_amount_exact_example :
    (get_penalized_amount 1000 100000 150000
      ≡ 1000 * (150000 * (2 * 100000 - 150000)) / (100000 * 100000))
    × (get_penalized_amount 1000 100000 150000 < 1000)
get_penalized_amount_exact_example =
    get_penalized_amount_exact 1000 100000 150000 (omega arith) (omega arith) (omega arith)
      (omega arith) (omega arith) (omega arith) (omega arith)

coin-IsBlock : IsBlock coin 100000 150000 1000000 5000
coin-IsBlock = record {
  supply_word = omega arith;
  supply_left = omega arith;
  fee_word = omega arith;
  median_word = omega arith;
  median_pos = omega arith;
  size_word = omega arith;
  size_limit = omega arith;
}

reward-emission_change_example :
    (get_block_reward coin 4 100000 150000 1000000 5000).reward
    ≡ ((get_block_reward coin 4 100000 150000 1000000 5000).emission_change + 5000) % 2 ^ 64
reward-emission_change_example =
    reward-emission_change coin 4 100000 150000 1000000 5000 coin-IsBlock

fee_cut : get_penalized_amount 5000 100000 150000 ≡ 3750
unfolding get_penalized_amount mul128 div128_32 div_with_reminder
fee_cut = refl

reward_cut : get_penalized_amount (calc_base_reward coin 4 1000000) 100000 150000 ≡ 6597069766655
unfolding calc_base_reward get_penalized_amount mul128 div128_32 div_with_reminder
reward_cut = refl

burnt :
    5000 - get_penalized_amount 5000 100000 150000
    ≤ get_penalized_amount (calc_base_reward coin 4 1000000) 100000 150000
burnt = omega (arith, fee_cut, reward_cut)

supply_bounded_example :
    ((get_block_reward coin 4 100000 150000 1000000 5000).emission_change
      ≤ calc_base_reward coin 4 1000000)
    × (1000000 + (get_block_reward coin 4 100000 150000 1000000 5000).emission_change
        ≤ coin.money_supply)
supply_bounded_example = supply_bounded coin 4 100000 150000 1000000 5000 coin-IsBlock burnt

unlocked_early : is_transaction_spend_time_unlocked coin 101 100 5000 ≡ true
unfolding is_transaction_spend_time_unlocked
unlocked_early = refl

abbrev times : List ℕ
times = 1000 ∷ 1060 ∷ 1130 ∷ 1180 ∷ []

abbrev works : List ℕ
works = 5000 ∷ 6000 ∷ 7000 ∷ 8000 ∷ []

-- 3000 of work in 180 seconds.
next_early : next_difficulty_v1 coin 100 times works ≡ 1000
unfolding next_difficulty_v1 scaled_work total_work time_span mul128
next_early = refl
