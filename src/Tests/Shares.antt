-- ===== src/Tests/Shares.antt =====
-- Names of pool tokens, the shares of a period, and the parts of the steps of a block.

use Prim.Native.String.{String}
use okexchain.Base.{
  ℕ, ◌≡◌, refl, ℤ, pos, ◌+ℤ◌, ◌-ℤ◌, ◌≤ℤ◌, ◌≤◌, List, [], ◌∷◌, map, All, some, arith, ok,
}
use okexchain.Sdk.{coin}
use okexchain.Swap.{get_pool_token_name, get_base_quote_token_name}
use okexchain.Swap.Redeem.{split_pool_token}
use okexchain.Swap.Redeem.Names.{has_underscore, split_pool_token-get_pool_token_name}
use okexchain.Farm.Types.{LockInfo, State, previous_period, next_period}
use okexchain.Farm.Rewards.{
  increment_pool_period, decrement_reference_count, calculate_rewards,
  calculate_lock_rewards_between,
}
use okexchain.Farm.Rewards.Shares.{
  paid_together, locked, total_of, paid_together-increment_pool_period,
}
use okexchain.Tests.Setting.{dec_math, signed}
use okexchain.Tests.Farm.{coin_sets, module_bank, genesis, or_else}

split_pool_token-get_pool_token_name_example :
    split_pool_token (get_pool_token_name "usdk" "okt")
    ≡ some (get_base_quote_token_name "usdk" "okt")
unfolding has_underscore
split_pool_token-get_pool_token_name_example =
    split_pool_token-get_pool_token_name "usdk" "okt" refl refl

-- A pool that has earned seven in its first period, and two locks of it.
abbrev seven : coin_sets.Coins
unfolding coin_sets
seven d = pos 7

abbrev nothing : coin_sets.Coins
unfolding coin_sets
nothing d = pos 0

abbrev lock_of : String → ℤ → LockInfo
lock_of owner n = record {
  owner = owner;
  pool_name = "pool";
  amount = coin "usdk" n;
  start_block_height = pos 0;
  reference_period = 0;
}

abbrev two_locks : List LockInfo
two_locks = lock_of "ann" (pos 100000000) ∷ lock_of "bob" (pos 200000000) ∷ []

abbrev before : State coin_sets module_bank
before = record genesis {
  current = λ pool. some (record { start_block_height = pos 1; period = 1; rewards = seven });
  historical =
      λ pool period. some (record { cumulative_reward_ratio = nothing; reference_count = 2 });
}

abbrev ended : State coin_sets module_bank × ℕ
ended =
    or_else (before, 0)
      (increment_pool_period coin_sets module_bank "pool" (coin "usdk" (pos 300000000)) nothing
        before)

ended_ok :
    increment_pool_period coin_sets module_bank "pool" (coin "usdk" (pos 300000000)) nothing before
    ≡ ok (ended.0, 1)
unfolding genesis coin_sets module_bank dec_math signed increment_pool_period
    decrement_reference_count previous_period next_period ◌+ℤ◌ seven nothing
ended_ok = refl

paid_ok : paid_together coin_sets module_bank "okt" "pool" 1 two_locks ended.0 ≡ ok (pos 6)
unfolding genesis coin_sets module_bank dec_math signed increment_pool_period
    decrement_reference_count previous_period next_period ◌+ℤ◌ ◌-ℤ◌ seven nothing paid_together
    calculate_rewards calculate_lock_rewards_between
paid_ok = refl

earned : coin_sets.amount "okt" (coin_sets.add2 seven nothing) ≡ pos 7
unfolding coin_sets seven nothing ◌+ℤ◌
earned = refl

enough : total_of (map locked two_locks) ≤ 300000000
unfolding total_of
enough = omega arith

refers : All (λ lock. lock.reference_period ≡ previous_period 1) two_locks
unfolding previous_period
refers = (refl, (refl, tt))

paid_together-increment_pool_period_example : pos 6 ≤ℤ pos 7
paid_together-increment_pool_period_example =
    paid_together-increment_pool_period coin_sets module_bank "okt" "usdk" "pool" 300000000 7 1
      nothing (record { start_block_height = pos 1; period = 1; rewards = seven }) two_locks before
      ended.0 (pos 6) (omega arith) refl earned ended_ok refers enough paid_ok
