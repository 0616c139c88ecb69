-- ===== src/Farm/Earnings.antt =====
-- GetEarnings of x/farm/keeper/earnings.go, the query for what an account would be paid.
use Prim.Native.String.{String}
use okexchain.Base.{
  ℕ, ◌≡◌, refl, sym, ap, ◌∙◌, ℤ, pos, ◌-ℤ◌, some, Result, ok, ◌>>=◌, or_fail, or_fail->>=-eq-ok,
  >>=-eq-ok, ok-eq,
}
use okexchain.Sdk.{DecMath, Coin, CoinMath}
use okexchain.Sdk.Sets.{CoinSets, ModuleBank}
use okexchain.Farm.Types.{
  FarmError, no_lock_info_found, no_farm_pool_found, FarmPool, State, LockInfo, MsgClaim,
  yield_farming_account,
}
use okexchain.Farm.Yield.{calculate_amount_yielded_between}
use okexchain.Farm.Yield.Laws.{calculate_amount_yielded_between-keeps}
use okexchain.Farm.Rewards.{
  increment_pool_period, calculate_rewards, pay_rewards, decrement_reference_count,
  withdraw_rewards, update_lock_info,
}
use okexchain.Farm.Rewards.Moves.{withdraw_rewards-moves, update_lock_info-moves}
use okexchain.Farm.Handler.{handle_msg_claim, take_rewards}

module _ {m : DecMath} (s : CoinSets m) where
  pub record Earnings : Type 0 where
    pub target_block_height : ℤ
    pub amount_locked : Coin
    pub amount_yielded : s.Coins

module _ {m : DecMath} (s : CoinSets m) (k : ModuleBank s) where
  open s use {Coins, amount}
  open k use {balance}

  -- GetEarnings. What it writes is dropped with the context of the query.
  unfoldable pub get_earnings : String → String → State s k → Result FarmError (Earnings s)
  get_earnings pool_name addr st = do
    lock_info ← or_fail (st.locks addr pool_name) no_lock_info_found
    pool ← or_fail (st.pools pool_name) no_farm_pool_found
    (updated, yielded) ← calculate_amount_yielded_between s k pool st
    (st1, ending_period) ← increment_pool_period s k pool_name updated.total_value_locked yielded st
    rewards ← calculate_rewards s k pool_name ending_period lock_info st1
    ok (record {
      target_block_height = st.height;
      amount_locked = lock_info.amount;
      amount_yielded = rewards;
    })

  -- What WithdrawRewards pays, as a query would find it.
  withdraw_rewards-rewards :
      (pool : String) (total : Coin) (yielded rewards : Coins) (addr : String) (st st' : State s k)
      → withdraw_rewards s k pool total yielded addr st ≡ ok (st', rewards)
      → (lock_info : LockInfo) × (st1 : State s k) × (ending : ℕ) × (st.locks addr pool
          ≡ some lock_info)
        × (increment_pool_period s k pool total yielded st ≡ ok (st1, ending))
        × (calculate_rewards s k pool ending lock_info st1 ≡ ok rewards)
  unfolding withdraw_rewards
  withdraw_rewards-rewards pool total yielded rewards addr st st' h =
      let (lock_info, e1, h1) = or_fail->>=-eq-ok (st.locks addr pool) _ _ h in
      let ((st1, ending), e2, h2) =
        >>=-eq-ok (increment_pool_period s k pool total yielded st) _ h1 in
      let (r, e3, h3) = >>=-eq-ok (calculate_rewards s k pool ending lock_info st1) _ h2 in
      let (st2, _, h4) = >>=-eq-ok (pay_rewards s k addr r st1) _ h3 in
      let (st3, _, h5) =
        >>=-eq-ok (decrement_reference_count s k pool lock_info.reference_period st2) _ h4 in
      (lock_info, st1, ending, e1, e2, e3 ∙ ap (λ x. ok x.1) (ok-eq h5))

  get_earnings_of_parts :
      (name addr : String) (pool updated : FarmPool s) (yielded rewards : Coins) (info : LockInfo)
      (st st1 : State s k) (ending : ℕ)
      → st.locks addr name ≡ some info
      → st.pools name ≡ some pool
      → calculate_amount_yielded_between s k pool st ≡ ok (updated, yielded)
      → increment_pool_period s k name updated.total_value_locked yielded st ≡ ok (st1, ending)
      → calculate_rewards s k name ending info st1 ≡ ok rewards
      → get_earnings name addr st
        ≡ ok (record {
          target_block_height = st.height;
          amount_locked = info.amount;
          amount_yielded = rewards;
        })
  unfolding get_earnings
  get_earnings_of_parts name addr pool updated yielded rewards info st st1 ending e f g h i =
      rw (e, f) (rw g (rw h (rw i refl)))

  -- If the named pool stands under its own name and a claim succeeds, then GetEarnings succeeds on
  -- the state before it, and the yield farming account pays just the amount that GetEarnings
  -- announces, in every denomination.
  pub handle_msg_claim-get_earnings :
      (c : CoinMath) (msg : MsgClaim) (st st' : State s k)
      → ((pool : FarmPool s) → st.pools msg.pool_name ≡ some pool → pool.name ≡ msg.pool_name)
      → handle_msg_claim s k c msg st ≡ ok st'
      → (earnings : Earnings s) × (get_earnings msg.pool_name msg.address st ≡ ok earnings)
        × ((d : String)
            → balance st'.bank yield_farming_account d
              ≡ balance st.bank yield_farming_account d -ℤ amount d earnings.amount_yielded)
  unfolding handle_msg_claim
  handle_msg_claim-get_earnings c msg st st' key h =
      let (pool, e, h1) = or_fail->>=-eq-ok (st.pools msg.pool_name) _ _ h in
      let ((updated, yielded), e2, h2) =
        >>=-eq-ok (calculate_amount_yielded_between s k pool st) _ h1 in
      let ((st1, rewards), e3, h3) =
        >>=-eq-ok (withdraw_rewards s k pool.name pool.total_value_locked yielded msg.address st) _
          h2 in
      let (st2, e4, h4) = >>=-eq-ok (update_lock_info s k msg.address pool.name (pos 0) st1) _ h3 in
      let (acc, e5, h5) =
        >>=-eq-ok (take_rewards s k c updated.total_accumulated_rewards rewards) _ h4 in
      let (_, _, b) =
        withdraw_rewards-moves s k pool.name _ yielded rewards msg.address st st1 e3 in
      let (_, b') = update_lock_info-moves s k msg.address pool.name (pos 0) st1 st2 e4 in
      let (_, _, _, tvl, _, _) =
        calculate_amount_yielded_between-keeps s "" k pool updated yielded st e2 in
      let same = key pool e in
      let (info, mid, ending, e6, e7, e8) =
        withdraw_rewards-rewards msg.pool_name updated.total_value_locked yielded rewards
          msg.address st st1
          (ap (λ n. withdraw_rewards s k n updated.total_value_locked yielded msg.address st)
              (sym same)
            ∙ ap (λ t. withdraw_rewards s k pool.name t yielded msg.address st) tvl
            ∙ e3) in
      (
        record {
          target_block_height = st.height;
          amount_locked = info.amount;
          amount_yielded = rewards;
        },
        get_earnings_of_parts msg.pool_name msg.address pool updated yielded rewards info st mid
            ending e6 e e2 e7 e8,
        λ d.
            ap (λ x. balance x.bank yield_farming_account d) (sym (ok-eq h5))
            ∙ ap (λ x. balance x yield_farming_account d) b'
            ∙ b yield_farming_account d,
      )
