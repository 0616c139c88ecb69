-- ===== src/Farm/Handler/Frozen.antt =====
-- handleMsgDestroyPool and the pools whose names begin with the name of the destroyed one.
use Prim.Native.String.{String, ◌++◌}
use text.Mathlib.Text.{◌==◌ as string_eq}
use okexchain.Base.{
  update, ℕ, ◌≡◌, ◌≢◌, refl, sym, ap, ◌∙◌, pos, ◌-ℤ◌, ltb_ℤ, eqb_ℤ, Bool, true, false, not, ◌&&◌,
  none, some, ok, >>=-eq-ok, or_fail->>=-eq-ok, fail_if->>-eq-ok, ok-eq,
}
use okexchain.Sdk.{DecMath, Coin, CoinMath}
use okexchain.Sdk.Sets.{CoinSets, ModuleBank}
use okexchain.Farm.Types.{
  FarmPool, State, previous_period, MsgLock, MsgDestroyPool, yield_farming_account, farm_account,
}
use okexchain.Farm.Keys.{is_prefix-longer}
use okexchain.Farm.Yield.{calculate_amount_yielded_between}
use okexchain.Farm.Rewards.{increment_pool_period, withdraw_rewards}
use okexchain.Farm.Handler.{
  to_coins, is_lt, finished, pay, delete_historical, handle_msg_unlock, handle_msg_destroy_pool,
}

module _ {m : DecMath} (s : CoinSets m) (k : ModuleBank s) (c : CoinMath) where
  open s use {Coins}

  withdraw_rewards-lost :
      (pool : String) (total : Coin) (yielded rewards : Coins) (addr : String) (st st' : State s k)
      → ((period : ℕ) → st.historical pool period ≡ none)
      → withdraw_rewards s k pool total yielded addr st ≢ ok (st', rewards)
  unfolding withdraw_rewards increment_pool_period
  withdraw_rewards-lost pool total yielded rewards addr st st' lost h =
      let (info, _, h1) = or_fail->>=-eq-ok (st.locks addr pool) _ _ h in
      let ((st1, ending), e, _) =
        >>=-eq-ok (increment_pool_period s k pool total yielded st) _ h1 in
      let (current, _, h2) = or_fail->>=-eq-ok (st.current pool) _ _ e in
      let (historical, f, _) =
        or_fail->>=-eq-ok (st.historical pool (previous_period current.period)) _ _ h2 in
      let g = lost (previous_period current.period) in cc

  pay-store :
      (idle : Bool) (account addr : String) (coins : Coins) (st st' : State s k)
      → pay s k c idle account addr coins st ≡ ok st'
      → (st'.pools ≡ st.pools) × (st'.historical ≡ st.historical)
  pay-store true account addr coins st st' h =
      let e = sym (ok-eq h) in (ap (λ x. x.pools) e, ap (λ x. x.historical) e)
  pay-store false account addr coins st st' h =
      let (bank, _, h1) =
        or_fail->>=-eq-ok (k.module_to_account account addr coins st.bank) _ _ h in
      let e = sym (ok-eq h1) in (ap (λ x. x.pools) e, ap (λ x. x.historical) e)

  destroy-store :
      (msg : MsgDestroyPool) (st st' : State s k)
      → handle_msg_destroy_pool s k c msg st ≡ ok st'
      → (st'.pools ≡ update st.pools msg.pool_name none)
        × (st'.historical ≡ delete_historical s k c msg.pool_name st.historical)
  unfolding handle_msg_destroy_pool
  destroy-store msg st st' h =
      let (pool, _, h1) = or_fail->>=-eq-ok (st.pools msg.pool_name) _ _ h in
      let (_, h2) = fail_if->>-eq-ok (not (string_eq pool.owner msg.owner)) _ _ h1 in
      let ((updated, yielded), _, h3) =
        >>=-eq-ok (calculate_amount_yielded_between s k pool st) _ h2 in
      let (_, h4) = fail_if->>-eq-ok (not (finished s k c updated)) _ _ h3 in
      let rewards = updated.total_accumulated_rewards in
      let deposit = pool.deposit_amount in
      let (st1, e1, h5) =
        >>=-eq-ok (pay s k c (s.is_zero rewards) yield_farming_account msg.owner rewards st) _ h4 in
      let (st2, e2, h6) =
        >>=-eq-ok
          (pay s k c (not (ltb_ℤ (pos 0) deposit.amount)) farm_account msg.owner
            (to_coins s k c deposit) st1)
          _ h5 in
      let (p1, r1) = pay-store _ _ _ rewards st st1 e1 in
      let (p2, r2) = pay-store _ _ _ (to_coins s k c deposit) st1 st2 e2 in
      let end = sym (ok-eq h6) in
      (
        ap (λ x. x.pools) end ∙ ap (λ f. update f msg.pool_name none) (p2 ∙ p1),
        ap (λ x. x.historical) end ∙ ap (delete_historical s k c msg.pool_name) (r2 ∙ r1),
      )

  unlock-lost :
      (msg : MsgLock) (st st' : State s k)
      → ((pool : FarmPool s) → st.pools msg.pool_name ≡ some pool → pool.name ≡ msg.pool_name)
      → ((period : ℕ) → st.historical msg.pool_name period ≡ none)
      → handle_msg_unlock s k c msg st ≢ ok st'
  unfolding handle_msg_unlock
  unlock-lost msg st st' key lost h =
      let (info, _, h1) = or_fail->>=-eq-ok (st.locks msg.address msg.pool_name) _ _ h in
      let (_, h2) = fail_if->>-eq-ok (not (string_eq info.amount.denom msg.amount.denom)) _ _ h1 in
      let (short, _, h3) = >>=-eq-ok (is_lt info.amount msg.amount) _ h2 in
      let (_, h4) = fail_if->>-eq-ok short _ _ h3 in
      let (pool, e, h5) = or_fail->>=-eq-ok (st.pools msg.pool_name) _ _ h4 in
      let (_, h6) =
        fail_if->>-eq-ok (not (string_eq pool.min_lock_amount.denom msg.amount.denom)) _ _ h5 in
      let remain = info.amount.amount -ℤ msg.amount.amount in
      let (_, h7) =
        fail_if->>-eq-ok (not (eqb_ℤ remain (pos 0)) && ltb_ℤ remain pool.min_lock_amount.amount) _
          _ h6 in
      let ((updated, yielded), _, h8) =
        >>=-eq-ok (calculate_amount_yielded_between s k pool st) _ h7 in
      let ((st1, rewards), e9, _) =
        >>=-eq-ok (withdraw_rewards s k pool.name pool.total_value_locked yielded msg.address st) _
          h8 in
      withdraw_rewards-lost msg.pool_name pool.total_value_locked yielded rewards msg.address st st1
        lost
        (ap (λ n. withdraw_rewards s k n pool.total_value_locked yielded msg.address st)
            (sym (key pool e))
          ∙ e9)

  -- Let every pool stand under its own name, and let a pool be destroyed. Then no request to unlock
  -- from a pool whose name is the destroyed pool's name with a text after it succeeds on the state
  -- that results.
  pub handle_msg_destroy_pool-freezes :
      (msg : MsgDestroyPool) (request : MsgLock) (rest : String) (st st' st'' : State s k)
      → ((name : String) (pool : FarmPool s) → st.pools name ≡ some pool → pool.name ≡ name)
      → request.pool_name ≡ msg.pool_name ++ rest
      → handle_msg_destroy_pool s k c msg st ≡ ok st'
      → handle_msg_unlock s k c request st' ≢ ok st''
  unfolding delete_historical
  handle_msg_destroy_pool-freezes msg request rest st st' st'' key longer h =
      let (p, r) = destroy-store msg st st' h in
      unlock-lost request st' st''
        (λ pool e.
          still (string_eq msg.pool_name request.pool_name) refl pool
            (ap (λ f. f request.pool_name) (sym p) ∙ e))
        (λ period.
          ap (λ f. f request.pool_name period) r
          ∙ ap (λ n. delete_historical s k c msg.pool_name st.historical n period) longer
          ∙ rw (is_prefix-longer msg.pool_name rest period) refl)
    where
      still :
          (t : Bool)
          → string_eq msg.pool_name request.pool_name ≡ t
          → (pool : FarmPool s) → update st.pools msg.pool_name none request.pool_name ≡ some pool
          → pool.name ≡ request.pool_name
      still true t pool e = let e' = rw t at e in cc
      still false t pool e = key request.pool_name pool (rw t at e)
