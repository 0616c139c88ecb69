-- ===== src/Farm/Rewards.antt =====
-- The periods of rewards in x/farm/keeper/calc.go: each ends with a cumulative ratio, which stays in
-- the store for as long as something refers to it.
pub mod Moves
pub mod Shares
use Prim.Native.String.{String}
use text.Mathlib.Text.{◌==◌ as string_eq}
use okexchain.Base.{
  update, ℕ, ◌+◌, ◌-◌, ltb, ◌==◌, ℤ, pos, ◌+ℤ◌, ltb_ℤ, eqb_ℤ, Bool, true, false, ◌&&◌, Option, none,
  some, if◌then◌else◌, Result, ok, ◌>>=◌, ◌>>◌, fail_if, or_fail,
}
use okexchain.Sdk.{SdkDec, DecMath, Coin, coin}
use okexchain.Sdk.Sets.{CoinSets, ModuleBank}
use okexchain.Farm.Types.{
  FarmError, panic, no_lock_info_found, send_coins_failed, LockInfo, FarmPool,
  PoolHistoricalRewards, PoolCurrentRewards, State, update_at, next_period, previous_period,
  yield_farming_account,
}

module _ {m : DecMath} (s : CoinSets m) (k : ModuleBank s) where
  open s use {Coins, empty, add2, sub, mul_dec_truncate, quo_dec_truncate, is_zero}

  -- GetPoolHistoricalRewards panics on a period that the store does not have.
  abbrev pub get_historical : String → ℕ → State s k → Result FarmError (PoolHistoricalRewards s)
  get_historical pool period st = or_fail (st.historical pool period) panic

  abbrev pub set_historical : String → ℕ → Option (PoolHistoricalRewards s) → State s k → State s k
  set_historical pool period value st = record st {
    historical = update st.historical pool (update_at (st.historical pool) period value);
  }

  -- incrementReferenceCount
  unfoldable pub increment_reference_count : String → ℕ → State s k → Result FarmError (State s k)
  increment_reference_count pool period st = do
    historical ← get_historical pool period st
    fail_if (ltb 2 historical.reference_count) panic
    let historical' = record historical { reference_count = historical.reference_count + 1 }
    ok (set_historical pool period (some historical') st)

  -- decrementReferenceCount
  unfoldable pub decrement_reference_count : String → ℕ → State s k → Result FarmError (State s k)
  decrement_reference_count pool period st = do
    historical ← get_historical pool period st
    fail_if (historical.reference_count == 0) panic
    let historical' = record historical { reference_count = historical.reference_count - 1 }
    ok (
        set_historical pool period
          (if historical.reference_count - 1 == 0 then none else some historical') st)

  -- The ratio that the current period has earned for each locked token.
  abbrev pub current_ratio : Coin → Coins → Coins
  current_ratio total_value_locked rewards =
      if eqb_ℤ total_value_locked.amount (pos 0)
      then empty
      else quo_dec_truncate rewards total_value_locked.amount

  -- IncrementPoolPeriod, with the period that has ended.
  unfoldable pub increment_pool_period :
      String → Coin → Coins → State s k → Result FarmError (State s k × ℕ)
  increment_pool_period pool total_value_locked yielded st = do
    current ← or_fail (st.current pool) panic
    let ratio = current_ratio total_value_locked (add2 current.rewards yielded)
    historical ← get_historical pool (previous_period current.period) st
    st1 ← decrement_reference_count pool (previous_period current.period) st
    let ended : PoolHistoricalRewards s = record {
      cumulative_reward_ratio = add2 historical.cumulative_reward_ratio ratio;
      reference_count = 1;
    }
    let st2 = set_historical pool current.period (some ended) st1
    let started : PoolCurrentRewards s = record {
      start_block_height = st.height;
      period = next_period current.period;
      rewards = empty;
    }
    ok (record st2 { current = update st2.current pool (some started) }, current.period)

  -- calculateLockRewardsBetween
  unfoldable pub calculate_lock_rewards_between :
      String → ℕ → ℕ → Coin → State s k → Result FarmError Coins
  calculate_lock_rewards_between pool starting_period ending_period amount st = do
    fail_if (ltb ending_period starting_period) panic
    fail_if (ltb_ℤ amount.amount (pos 0)) panic
    starting ← get_historical pool starting_period st
    ending ← get_historical pool ending_period st
    difference ← or_fail (sub ending.cumulative_reward_ratio starting.cumulative_reward_ratio) panic
    ok (mul_dec_truncate difference amount.amount)

  -- calculateRewards
  unfoldable pub calculate_rewards : String → ℕ → LockInfo → State s k → Result FarmError Coins
  calculate_rewards pool ending_period lock_info st =
      if eqb_ℤ lock_info.start_block_height st.height
      then ok empty
      else calculate_lock_rewards_between pool lock_info.reference_period ending_period
          lock_info.amount st

  -- The transfer of WithdrawRewards
  unfoldable pub pay_rewards : String → Coins → State s k → Result FarmError (State s k)
  pay_rewards addr rewards st = if is_zero rewards then ok st else (do
    bank ←
        or_fail (k.module_to_account yield_farming_account addr rewards st.bank) send_coins_failed
    ok (record st { bank = bank }))

  -- WithdrawRewards
  unfoldable pub withdraw_rewards :
      String → Coin → Coins → String → State s k → Result FarmError (State s k × Coins)
  withdraw_rewards pool total_value_locked yielded addr st = do
    lock_info ← or_fail (st.locks addr pool) no_lock_info_found
    (st1, ending_period) ← increment_pool_period pool total_value_locked yielded st
    rewards ← calculate_rewards pool ending_period lock_info st1
    st2 ← pay_rewards addr rewards st1
    st3 ← decrement_reference_count pool lock_info.reference_period st2
    ok (st3, rewards)

  abbrev pub set_farm_pool : FarmPool s → State s k → State s k
  set_farm_pool pool st = record st { pools = update st.pools pool.name (some pool) }

  abbrev pub set_lock : String → String → Option LockInfo → State s k → State s k
  set_lock addr pool value st = record st {
    locks = update st.locks addr (update (st.locks addr) pool value);
  }

  -- Set- and DeleteAddressInFarmPool
  abbrev pub set_address : String → String → Bool → State s k → State s k
  set_address pool addr value st = record st {
    addresses = update st.addresses pool (update (st.addresses pool) addr value);
  }

  -- UpdateLockInfo
  unfoldable pub update_lock_info :
      String → String → SdkDec → State s k → Result FarmError (State s k)
  update_lock_info addr pool changed_amount st = do
    current ← or_fail (st.current pool) panic
    lock_info ← or_fail (st.locks addr pool) panic
    let amount = lock_info.amount.amount +ℤ changed_amount
    let lock_info' = record lock_info {
      start_block_height = st.height;
      reference_period = previous_period current.period;
      amount = coin lock_info.amount.denom amount;
    }
    let key = lock_info.owner
    let name = lock_info.pool_name
    let rest = do
      st1 ← increment_reference_count pool (previous_period current.period) st
      ok (set_address name key true (set_lock key name (some lock_info') st1))
    if eqb_ℤ amount (pos 0)
        then ok (set_address name key false (set_lock key name none st))
        else rest
