-- ===== src/Farm/Handler.antt =====
-- x/farm/handler.go, handler_lock.go and handler_pool.go. Events and the notices to the backend
-- module are left out; the messages have passed ValidateBasic.
pub mod Settled
pub mod Locks
pub mod Frozen
use Prim.Native.String.{String}
use text.Mathlib.Text.{◌==◌ as string_eq}
use okexchain.Base.{
  update, ℕ, ◌==◌, length, ℤ, pos, ◌+ℤ◌, ◌-ℤ◌, ltb_ℤ, leb_ℤ, eqb_ℤ, Bool, true, false, not, ◌&&◌,
  List, [], ◌∷◌, Option, none, some, if◌then◌else◌, Result, ok, err, ◌>>=◌, ◌>>◌, fail_if, or_fail,
}
use okexchain.Sdk.{SdkDec, DecMath, Coin, coin, CoinMath}
use okexchain.Sdk.Sets.{CoinSets, ModuleBank}
use okexchain.Farm.Types.{
  farm_account, yield_farming_account, FarmError, panic, no_farm_pool_found, invalid_denom,
  lock_amount_below_minimum, no_lock_info_found, insufficient_amount, pool_already_exist,
  token_not_exist, insufficient_coins, invalid_pool_owner, pool_not_finished, invalid_start_height,
  remaining_amount_not_zero, send_from_account_to_module_failed, send_from_module_to_account_failed,
  YieldedTokenInfo, LockInfo, MsgCreatePool, MsgDestroyPool, MsgProvide, MsgLock, MsgClaim,
  FarmPool, PoolHistoricalRewards, PoolCurrentRewards, State,
}
use okexchain.Farm.Keys.{is_prefix, name_bytes, get_pool_historical_rewards_key}
use okexchain.Farm.Yield.{calculate_amount_yielded_between}
use okexchain.Farm.Rewards.{
  increment_pool_period, withdraw_rewards, update_lock_info, set_lock, set_address, set_historical,
  set_farm_pool,
}

abbrev pub is_some {ℓ} : {A : Type ℓ} → Option A → Bool
is_some none = false
is_some (some a) = true

-- IsLT of two coins panics where their denominations differ.
abbrev pub is_lt : Coin → Coin → Result FarmError Bool
is_lt a b = if string_eq a.denom b.denom then ok (ltb_ℤ a.amount b.amount) else err panic

abbrev pub is_exhausted : YieldedTokenInfo → Bool
is_exhausted info = not (ltb_ℤ (pos 0) info.remaining_amount.amount)

unfoldable pub all_exhausted : List YieldedTokenInfo → Bool
all_exhausted [] = true
all_exhausted (info ∷ infos) = is_exhausted info && all_exhausted infos

-- A pool yields one token in this version of the code, which panics on any other number.
abbrev pub only_info : List YieldedTokenInfo → Result FarmError YieldedTokenInfo
only_info [] = err panic
only_info (info ∷ []) = ok info
only_info (info ∷ other ∷ infos) = err panic

module _ {m : DecMath} (s : CoinSets m) (k : ModuleBank s) (c : CoinMath) where
  open s use {Coins, empty, of_amount, is_zero, is_all_lt}
  open c use {coin_add, coin_sub}

  -- ToCoins of one coin
  abbrev pub to_coins : Coin → Coins
  to_coins x = of_amount x.denom x.amount

  -- The rewards that a pool still owes once some are paid.
  unfoldable pub take_rewards : Coins → Coins → Result FarmError Coins
  take_rewards accumulated rewards = do
    fail_if (is_all_lt accumulated rewards) panic
    or_fail (s.sub accumulated rewards) panic

  -- Step 3 of handleMsgLock: the state and the accumulated rewards after it.
  unfoldable pub settle_lock :
      Bool
      → String
      → FarmPool s
      → FarmPool s
      → Coins
      → State s k
      → Result FarmError (State s k × Coins)
  settle_lock has_locked addr pool updated yielded st =
      if has_locked
      then (do
        (st1, rewards) ← withdraw_rewards s k pool.name pool.total_value_locked yielded addr st
        accumulated ← take_rewards updated.total_accumulated_rewards rewards
        ok (st1, accumulated))
      else (do
        (st1, _) ← increment_pool_period s k pool.name pool.total_value_locked yielded st
        let lock_info : LockInfo = record {
          owner = addr;
          pool_name = pool.name;
          amount = coin pool.min_lock_amount.denom (pos 0);
          start_block_height = st.height;
          reference_period = 0;
        }
        ok (
          set_address s k pool.name addr true (set_lock s k addr pool.name (some lock_info) st1),
          updated.total_accumulated_rewards,
        ))

  -- Steps 4 to 6 of handleMsgLock
  unfoldable pub take_in : MsgLock → FarmPool s → Coins → State s k → Result FarmError (State s k)
  take_in msg updated accumulated st1 = do
    st2 ← update_lock_info s k msg.address msg.pool_name msg.amount.amount st1
    bank ←
        or_fail (k.account_to_module msg.address farm_account (to_coins msg.amount) st2.bank)
          send_from_account_to_module_failed
    total ← or_fail (coin_add updated.total_value_locked msg.amount) panic
    let pool' : FarmPool s = record updated {
      total_value_locked = total;
      total_accumulated_rewards = accumulated;
    }
    ok (set_farm_pool s k pool' (record st2 { bank = bank }))

  -- handleMsgLock
  unfoldable pub handle_msg_lock : MsgLock → State s k → Result FarmError (State s k)
  handle_msg_lock msg st = do
    pool ← or_fail (st.pools msg.pool_name) no_farm_pool_found
    fail_if (not (string_eq pool.min_lock_amount.denom msg.amount.denom)) invalid_denom
    let has_locked = is_some (st.locks msg.address msg.pool_name)
    fail_if (not has_locked && ltb_ℤ msg.amount.amount pool.min_lock_amount.amount)
        lock_amount_below_minimum
    (updated, yielded) ← calculate_amount_yielded_between s k pool st
    (st1, accumulated) ← settle_lock has_locked msg.address pool updated yielded st
    take_in msg updated accumulated st1

  -- Steps 4 to 6 of handleMsgUnlock
  unfoldable pub release : MsgLock → FarmPool s → Coins → State s k → Result FarmError (State s k)
  release msg updated rewards st1 = do
    st2 ← update_lock_info s k msg.address msg.pool_name (pos 0 -ℤ msg.amount.amount) st1
    bank ←
        or_fail (k.module_to_account farm_account msg.address (to_coins msg.amount) st2.bank)
          send_from_module_to_account_failed
    total ← or_fail (coin_sub updated.total_value_locked msg.amount) panic
    accumulated ← take_rewards updated.total_accumulated_rewards rewards
    let pool' : FarmPool s = record updated {
      total_value_locked = total;
      total_accumulated_rewards = accumulated;
    }
    ok (set_farm_pool s k pool' (record st2 { bank = bank }))

  -- handleMsgUnlock
  unfoldable pub handle_msg_unlock : MsgLock → State s k → Result FarmError (State s k)
  handle_msg_unlock msg st = do
    lock_info ← or_fail (st.locks msg.address msg.pool_name) no_lock_info_found
    fail_if (not (string_eq lock_info.amount.denom msg.amount.denom)) invalid_denom
    too_much ← is_lt lock_info.amount msg.amount
    fail_if too_much insufficient_amount
    pool ← or_fail (st.pools msg.pool_name) no_farm_pool_found
    fail_if (not (string_eq pool.min_lock_amount.denom msg.amount.denom)) invalid_denom
    let remain = lock_info.amount.amount -ℤ msg.amount.amount
    fail_if (not (eqb_ℤ remain (pos 0)) && ltb_ℤ remain pool.min_lock_amount.amount)
        lock_amount_below_minimum
    (updated, yielded) ← calculate_amount_yielded_between s k pool st
    (st1, rewards) ← withdraw_rewards s k pool.name pool.total_value_locked yielded msg.address st
    release msg updated rewards st1

  -- handleMsgClaim
  unfoldable pub handle_msg_claim : MsgClaim → State s k → Result FarmError (State s k)
  handle_msg_claim msg st = do
    pool ← or_fail (st.pools msg.pool_name) no_farm_pool_found
    (updated, yielded) ← calculate_amount_yielded_between s k pool st
    (st1, rewards) ← withdraw_rewards s k pool.name pool.total_value_locked yielded msg.address st
    st2 ← update_lock_info s k msg.address pool.name (pos 0) st1
    accumulated ← take_rewards updated.total_accumulated_rewards rewards
    ok (set_farm_pool s k (record updated { total_accumulated_rewards = accumulated }) st2)

  -- Steps 1 to 5 of handleMsgProvide
  unfoldable pub fund : MsgProvide → FarmPool s → State s k → Result FarmError (State s k)
  fund msg pool st = do
    (updated, yielded) ← calculate_amount_yielded_between s k pool st
    left ← only_info updated.yielded_token_infos
    fail_if (not (eqb_ℤ left.remaining_amount.amount (pos 0))) remaining_amount_not_zero
    (st1, _) ← increment_pool_period s k pool.name pool.total_value_locked yielded st
    bank ←
        or_fail
          (k.account_to_module msg.address yield_farming_account (to_coins msg.amount) st1.bank)
          send_from_account_to_module_failed
    let provided : YieldedTokenInfo = record {
      remaining_amount = msg.amount;
      start_block_height_to_yield = msg.start_height_to_yield;
      amount_yielded_per_block = msg.amount_yielded_per_block;
    }
    ok (
        set_farm_pool s k (record updated { yielded_token_infos = provided ∷ [] })
          (record st1 { bank = bank }))

  -- handleMsgProvide
  unfoldable pub handle_msg_provide : MsgProvide → State s k → Result FarmError (State s k)
  handle_msg_provide msg st = do
    fail_if (leb_ℤ msg.start_height_to_yield st.height) invalid_start_height
    pool ← or_fail (st.pools msg.pool_name) no_farm_pool_found
    fail_if (not (string_eq pool.owner msg.address)) invalid_pool_owner
    info ← only_info pool.yielded_token_infos
    fail_if (not (string_eq info.remaining_amount.denom msg.amount.denom)) invalid_denom
    fund msg pool st

  -- handleMsgCreatePool
  unfoldable pub handle_msg_create_pool : MsgCreatePool → State s k → Result FarmError (State s k)
  handle_msg_create_pool msg st = do
    fail_if (is_some (st.pools msg.pool_name)) pool_already_exist
    fail_if (not (st.token_exist msg.min_lock_amount.denom)) token_not_exist
    fail_if (not (st.token_exist msg.yielded_symbol)) token_not_exist
    let fee = to_coins st.params.create_pool_fee
    bank1 ← or_fail (k.account_to_module msg.owner st.fee_collector fee st.bank) insufficient_coins
    let deposit = st.params.create_pool_deposit
    bank2 ←
        or_fail (k.account_to_module msg.owner farm_account (to_coins deposit) bank1)
          insufficient_coins
    let info : YieldedTokenInfo = record {
      remaining_amount = coin msg.yielded_symbol (pos 0);
      start_block_height_to_yield = pos 0;
      amount_yielded_per_block = pos 0;
    }
    let pool : FarmPool s = record {
      owner = msg.owner;
      name = msg.pool_name;
      min_lock_amount = msg.min_lock_amount;
      deposit_amount = deposit;
      total_value_locked = coin msg.min_lock_amount.denom (pos 0);
      yielded_token_infos = info ∷ [];
      total_accumulated_rewards = empty;
    }
    let first : PoolHistoricalRewards s = record {
      cumulative_reward_ratio = empty;
      reference_count = 1;
    }
    let current : PoolCurrentRewards s = record {
      start_block_height = st.height;
      period = 1;
      rewards = empty;
    }
    let st1 =
        set_historical s k msg.pool_name 0 (some first)
          (set_farm_pool s k pool (record st { bank = bank2 }))
    ok (record st1 { current = update st1.current msg.pool_name (some current) })

  -- FarmPool.Finished
  unfoldable pub finished : FarmPool s → Bool
  unfolding all_exhausted
  finished pool =
      all_exhausted pool.yielded_token_infos && eqb_ℤ pool.total_value_locked.amount (pos 0)

  -- A transfer that is made only if there is something to pay.
  abbrev pub pay : Bool → String → String → Coins → State s k → Result FarmError (State s k)
  pay idle account addr coins st = if idle then ok st else (do
    bank ← or_fail (k.module_to_account account addr coins st.bank) insufficient_coins
    ok (record st { bank = bank }))

  -- IteratePoolHistoricalRewards with the function that deletes: all keys that begin with the name.
  unfoldable pub delete_historical :
      String
      → (String → ℕ → Option (PoolHistoricalRewards s))
      → String
      → ℕ
      → Option (PoolHistoricalRewards s)
  delete_historical pool historical name period =
      if is_prefix (name_bytes pool) (get_pool_historical_rewards_key name period)
      then none
      else historical name period

  -- handleMsgDestroyPool
  unfoldable pub handle_msg_destroy_pool : MsgDestroyPool → State s k → Result FarmError (State s k)
  handle_msg_destroy_pool msg st = do
    pool ← or_fail (st.pools msg.pool_name) no_farm_pool_found
    fail_if (not (string_eq pool.owner msg.owner)) invalid_pool_owner
    (updated, _) ← calculate_amount_yielded_between s k pool st
    fail_if (not (finished updated)) pool_not_finished
    let rewards = updated.total_accumulated_rewards
    st1 ← pay (is_zero rewards) yield_farming_account msg.owner rewards st
    let deposit = pool.deposit_amount
    st2 ← pay (not (ltb_ℤ (pos 0) deposit.amount)) farm_account msg.owner (to_coins deposit) st1
    ok (record st2 {
      pools = update st2.pools msg.pool_name none;
      whitelist = update st2.whitelist msg.pool_name false;
      historical = delete_historical msg.pool_name st2.historical;
      current = update st2.current msg.pool_name none;
    })
