-- ===== src/Farm/Handler/Locks.antt =====
-- handleMsgLock and handleMsgUnlock as changes of one pool's books and of the two accounts.
use Prim.Native.String.{String}
use text.Mathlib.Text.{◌==◌ as string_eq}
use okexchain.Base.{
  ◌≡◌, refl, sym, ap, ◌∙◌, ℤ, pos, ◌+ℤ◌, ◌-ℤ◌, ltb_ℤ, eqb_ℤ, int_laws, -ℤ_zero, +ℤ_zero, not, ◌&&◌,
  some, ok, >>=-eq-ok, or_fail->>=-eq-ok, fail_if->>-eq-ok, ok-eq,
}
use okexchain.Sdk.{DecMath, Coin, CoinMath}
use okexchain.Sdk.Coins.{held, coin_add-held, coin_sub-held}
use okexchain.Sdk.Sets.{CoinSets, ModuleBank, at_account}
use okexchain.Farm.Types.{FarmPool, State, farm_account, yield_farming_account, MsgLock}
use okexchain.Farm.Yield.{calculate_amount_yielded_between}
use okexchain.Farm.Yield.Laws.{accounted, calculate_amount_yielded_between-keeps}
use okexchain.Farm.Rewards.{withdraw_rewards, update_lock_info}
use okexchain.Farm.Rewards.Moves.{withdraw_rewards-moves, update_lock_info-moves}
use okexchain.Farm.Handler.{
  to_coins, is_some, is_lt, take_rewards, settle_lock, take_in, release, handle_msg_lock,
  handle_msg_unlock,
}
use okexchain.Farm.Handler.Settled.{
  Settled, Alike, Paid, settle_lock-Paid, take_rewards-amount, close,
}

module _ {m : DecMath} (s : CoinSets m) (k : ModuleBank s) (c : CoinMath) (d : String) where
  open s use {Coins, amount}
  open k use {balance}

  to_coins-held : (x : Coin) → amount d (to_coins s k c x) ≡ held d x
  to_coins-held x = s.amount-of_amount d x.denom x.amount

  -- The locked coins come in, and the pool is written.
  take_in-Settled :
      (msg : MsgLock) (pool updated : FarmPool s) (acc : Coins) (st st1 st' : State s k)
      → accounted s d updated ≡ accounted s d pool
      → updated.name ≡ pool.name
      → updated.total_value_locked ≡ pool.total_value_locked
      → Alike s k c d pool updated
      → Paid s k c d updated.total_accumulated_rewards acc st st1
      → take_in s k c msg updated acc st1 ≡ ok st'
      → Settled s k c d pool st st'
  unfolding take_in
  take_in-Settled msg pool updated acc st st1 st' keeps name tvl alike (x, p, b, left) h =
      let (st2, e1, h1) =
        >>=-eq-ok (update_lock_info s k msg.address msg.pool_name msg.amount.amount st1) _ h in
      let (bank, e2, h2) =
        or_fail->>=-eq-ok
          (k.account_to_module msg.address farm_account (to_coins s k c msg.amount) st2.bank) _ _
          h1 in
      let (total, e3, h3) =
        or_fail->>=-eq-ok (c.coin_add updated.total_value_locked msg.amount) _ _ h2 in
      let (p', b') = update_lock_info-moves s k msg.address msg.pool_name _ st1 st2 e1 in
      let paid : Paid s k c d updated.total_accumulated_rewards acc st st2 =
        (x, p' ∙ p, λ a. ap (λ n. balance n a d) b' ∙ b a, left) in
      let moves = λ (a : String).
        k.account_to_module-balance msg.address farm_account a d _ st2.bank bank e2 in
      let end = sym (ok-eq h3) in
      let pool' : FarmPool s = record updated {
        total_value_locked = total;
        total_accumulated_rewards = acc;
      } in
      close s k c d pool updated pool' st st2 st' acc (held d msg.amount) keeps paid refl name alike
        (ap (λ t. t.pools) end)
        (ap (λ t. balance t.bank yield_farming_account d) end
          ∙ moves yield_farming_account
          ∙ +ℤ_zero _)
        (ap (λ t. balance t.bank farm_account d) end
          ∙ moves farm_account
          ∙ ap (◌+ℤ◌ (balance st2.bank farm_account d)) (to_coins-held msg.amount))
        (coin_add-held c updated.total_value_locked msg.amount total d e3
          ∙ ap (λ v. held d v +ℤ held d msg.amount) tvl)

  -- handleMsgLock takes the locked coins into the farm account.
  pub handle_msg_lock-Settled :
      (msg : MsgLock) (st st' : State s k)
      → handle_msg_lock s k c msg st ≡ ok st'
      → (pool : FarmPool s) × (st.pools msg.pool_name ≡ some pool) × Settled s k c d pool st st'
  unfolding handle_msg_lock
  handle_msg_lock-Settled msg st st' h =
      let (pool, e, h1) = or_fail->>=-eq-ok (st.pools msg.pool_name) _ _ h in
      let (_, h2) =
        fail_if->>-eq-ok (not (string_eq pool.min_lock_amount.denom msg.amount.denom)) _ _ h1 in
      let has_locked = is_some (st.locks msg.address msg.pool_name) in
      let (_, h3) =
        fail_if->>-eq-ok (not has_locked && ltb_ℤ msg.amount.amount pool.min_lock_amount.amount) _ _
          h2 in
      let ((updated, yielded), e4, h4) =
        >>=-eq-ok (calculate_amount_yielded_between s k pool st) _ h3 in
      let ((st1, acc), e5, h5) =
        >>=-eq-ok (settle_lock s k c has_locked msg.address pool updated yielded st) _ h4 in
      let (keeps, _, name, tvl, deposit, sound) =
        calculate_amount_yielded_between-keeps s d k pool updated yielded st e4 in
      let paid =
        settle_lock-Paid s k c d has_locked msg.address pool updated yielded acc st st1 e5 in
      (
        pool,
        e,
        take_in-Settled msg pool updated acc st st1 st' keeps name tvl (deposit, sound) paid h5,
      )

  -- The locked coins go back to their owner, and the pool is written.
  release-Settled :
      (msg : MsgLock) (pool updated : FarmPool s) (rewards : Coins) (st st1 st' : State s k)
      → accounted s d updated ≡ accounted s d pool
      → updated.name ≡ pool.name
      → updated.total_value_locked ≡ pool.total_value_locked
      → Alike s k c d pool updated
      → st1.pools ≡ st.pools
      → ((b : String)
          → balance st1.bank b d
            ≡ balance st.bank b d -ℤ at_account yield_farming_account b (amount d rewards))
      → release s k c msg updated rewards st1 ≡ ok st'
      → Settled s k c d pool st st'
  unfolding release
  release-Settled msg pool updated rewards st st1 st' keeps name tvl alike p b h =
      let (st2, e1, h1) =
        >>=-eq-ok (update_lock_info s k msg.address msg.pool_name (pos 0 -ℤ msg.amount.amount) st1)
          _ h in
      let (bank, e2, h2) =
        or_fail->>=-eq-ok
          (k.module_to_account farm_account msg.address (to_coins s k c msg.amount) st2.bank) _ _
          h1 in
      let (total, e3, h3) =
        or_fail->>=-eq-ok (c.coin_sub updated.total_value_locked msg.amount) _ _ h2 in
      let (acc, e4, h4) =
        >>=-eq-ok (take_rewards s k c updated.total_accumulated_rewards rewards) _ h3 in
      let (p', b') = update_lock_info-moves s k msg.address msg.pool_name _ st1 st2 e1 in
      let paid : Paid s k c d updated.total_accumulated_rewards acc st st2 = (
        amount d rewards,
        p' ∙ p,
        λ a. ap (λ n. balance n a d) b' ∙ b a,
        take_rewards-amount s k c d _ rewards acc e4,
      ) in
      let moves = λ (a : String).
        k.module_to_account-balance msg.address farm_account a d _ st2.bank bank e2 in
      let end = sym (ok-eq h4) in
      let pool' : FarmPool s = record updated {
        total_value_locked = total;
        total_accumulated_rewards = acc;
      } in
      close s k c d pool updated pool' st st2 st' acc (pos 0 -ℤ held d msg.amount) keeps paid refl
        name alike (ap (λ t. t.pools) end)
        (ap (λ t. balance t.bank yield_farming_account d) end
          ∙ moves yield_farming_account
          ∙ -ℤ_zero _)
        (ap (λ t. balance t.bank farm_account d) end
          ∙ moves farm_account
          ∙ taken _ _ _ (to_coins-held msg.amount))
        (coin_sub-held c updated.total_value_locked msg.amount total d e3
          ∙ ap (λ v. held d v -ℤ held d msg.amount) tvl
          ∙ taken _ _ _ refl)
    where
      minus : (a n : ℤ) → a -ℤ n ≡ a +ℤ (pos 0 -ℤ n)
      minus a n = omega int_laws

      taken : (a n n' : ℤ) → n ≡ n' → a -ℤ n ≡ a +ℤ (pos 0 -ℤ n')
      taken a n n' e = minus a n ∙ ap (λ v. a +ℤ (pos 0 -ℤ v)) e

  -- handleMsgUnlock gives the locked coins back.
  pub handle_msg_unlock-Settled :
      (msg : MsgLock) (st st' : State s k)
      → handle_msg_unlock s k c msg st ≡ ok st'
      → (pool : FarmPool s) × (st.pools msg.pool_name ≡ some pool) × Settled s k c d pool st st'
  unfolding handle_msg_unlock
  handle_msg_unlock-Settled msg st st' h =
      let (info, _, h1) = or_fail->>=-eq-ok (st.locks msg.address msg.pool_name) _ _ h in
      let (_, h2) = fail_if->>-eq-ok (not (string_eq info.amount.denom msg.amount.denom)) _ _ h1 in
      let (short, _, h3) = >>=-eq-ok (is_lt info.amount msg.amount) _ h2 in
      let (_, h4) = fail_if->>-eq-ok short _ _ h3 in
      let (pool, e, h5) = or_fail->>=-eq-ok (st.pools msg.pool_name) _ _ h4 in
      let (_, h6) =
        fail_if->>-eq-ok (not (string_eq pool.min_lock_amount.denom msg.amount.denom)) _ _ h5 in
      let remain = info.amount.amount -ℤ msg.amount.amount in
      let (_, h7) =
        fail_if->>-eq-ok (not (eqb_ℤ remain (pos 0)) && ltb_ℤ remain pool.min_lock_amount.amount) _
          _ h6 in
      let ((updated, yielded), e8, h8) =
        >>=-eq-ok (calculate_amount_yielded_between s k pool st) _ h7 in
      let ((st1, rewards), e9, h9) =
        >>=-eq-ok (withdraw_rewards s k pool.name pool.total_value_locked yielded msg.address st) _
          h8 in
      let (keeps, _, name, tvl, deposit, sound) =
        calculate_amount_yielded_between-keeps s d k pool updated yielded st e8 in
      let (p, _, b) =
        withdraw_rewards-moves s k pool.name _ yielded rewards msg.address st st1 e9 in
      (
        pool,
        e,
        release-Settled msg pool updated rewards st st1 st' keeps name tvl (deposit, sound) p
            (λ a. b a d) h9,
      )
