-- ===== src/Farm/Handler/Settled.antt =====
-- The handlers of the farm module, each as a change of one pool's books and of the two accounts.
use Prim.Native.String.{String}
use text.Mathlib.Text.{◌==◌ as string_eq}
use okexchain.Base.{
  update, ◌≡◌, refl, sym, ap, ◌∙◌, inl, inr, ℤ, pos, ◌+ℤ◌, ◌-ℤ◌, int_laws, -ℤ_zero, +ℤ_zero, Bool,
  true, false, Bool-cases, some, ok, >>=-eq-ok, or_fail->>=-eq-ok, fail_if->>-eq-ok, ok-eq,
  or_fail-eq-ok,
}
use okexchain.Sdk.{SdkDec, DecMath, CoinMath}
use okexchain.Sdk.Coins.{held}
use okexchain.Sdk.Sets.{CoinSets, ModuleBank, at_account}
use okexchain.Farm.Types.{FarmPool, State, farm_account, yield_farming_account, MsgClaim}
use okexchain.Farm.Yield.{calculate_amount_yielded_between}
use okexchain.Farm.Yield.Laws.{
  accounted, none_negative, calculate_amount_yielded_between-keeps, to_yield,
}
use okexchain.Farm.Rewards.{increment_pool_period, withdraw_rewards, update_lock_info}
use okexchain.Farm.Rewards.Moves.{
  increment_pool_period-SameStore, withdraw_rewards-moves, update_lock_info-moves,
}
use okexchain.Farm.Handler.{take_rewards, settle_lock, handle_msg_claim}

rewards_left : (b x y t w : ℤ) → y ≡ w -ℤ x → b -ℤ x -ℤ (y +ℤ t) ≡ b -ℤ (w +ℤ t)
rewards_left b x y t w e = rw e (balanced b x t w)
  where
    balanced : (b x t w : ℤ) → b -ℤ x -ℤ (w -ℤ x +ℤ t) ≡ b -ℤ (w +ℤ t)
    balanced b x t w = omega int_laws

module _ {m : DecMath} (s : CoinSets m) (k : ModuleBank s) (c : CoinMath) (d : String) where
  open s use {Coins, amount}
  open k use {balance}

  -- What the accounts hold beyond what one pool's books say.
  abbrev pub yield_surplus : FarmPool s → State s k → SdkDec
  yield_surplus pool st = balance st.bank yield_farming_account d -ℤ accounted s d pool

  abbrev pub lock_surplus : FarmPool s → State s k → SdkDec
  lock_surplus pool st = balance st.bank farm_account d -ℤ held d pool.total_value_locked

  -- The deposit is the same, and no token has come to owe a negative amount.
  abbrev pub Alike : FarmPool s → FarmPool s → Type 0
  Alike pool pool' =
      (pool'.deposit_amount ≡ pool.deposit_amount)
      × (none_negative pool.yielded_token_infos ≡ true
          → none_negative pool'.yielded_token_infos ≡ true)

  -- One pool is replaced, and neither surplus has changed.
  abbrev pub Settled : FarmPool s → State s k → State s k → Type 0
  Settled pool st st' =
      (pool' : FarmPool s) × (st'.pools ≡ update st.pools pool.name (some pool'))
      × (pool'.name ≡ pool.name)
      × Alike pool pool'
      × (yield_surplus pool' st' ≡ yield_surplus pool st)
      × (lock_surplus pool' st' ≡ lock_surplus pool st)

  -- A payment of rewards: the pools stay, the yield farming account pays what the pool no longer
  -- owes.
  abbrev pub Paid : Coins → Coins → State s k → State s k → Type 0
  Paid owed owed' st st' =
      (x : ℤ) × (st'.pools ≡ st.pools)
      × ((b : String)
          → balance st'.bank b d ≡ balance st.bank b d -ℤ at_account yield_farming_account b x)
      × (amount d owed' ≡ amount d owed -ℤ x)

  pub take_rewards-amount :
      (accumulated rewards left : Coins)
      → take_rewards s k c accumulated rewards ≡ ok left
      → amount d left ≡ amount d accumulated -ℤ amount d rewards
  unfolding take_rewards
  take_rewards-amount accumulated rewards left h =
      let (_, h1) = fail_if->>-eq-ok (s.is_all_lt accumulated rewards) _ _ h in
      s.amount-sub d accumulated rewards left (or_fail-eq-ok (s.sub accumulated rewards) _ h1)

  nothing_paid : (b : String) (a : ℤ) → a ≡ a -ℤ at_account yield_farming_account b (pos 0)
  nothing_paid b a = elim (Bool-cases (string_eq yield_farming_account b)) [
    | inl t ↦ rw t (sym (-ℤ_zero a))
    | inr t ↦ rw t (sym (-ℤ_zero a))
  ]

  pub settle_lock-Paid :
      (has_locked : Bool) (addr : String) (pool updated : FarmPool s) (yielded left : Coins)
      (st st' : State s k)
      → settle_lock s k c has_locked addr pool updated yielded st ≡ ok (st', left)
      → Paid updated.total_accumulated_rewards left st st'
  unfolding settle_lock
  settle_lock-Paid true addr pool updated yielded left st st' h =
      let ((st1, rewards), e1, h1) =
        >>=-eq-ok (withdraw_rewards s k pool.name pool.total_value_locked yielded addr st) _ h in
      let (acc, e2, h2) =
        >>=-eq-ok (take_rewards s k c updated.total_accumulated_rewards rewards) _ h1 in
      let (p, _, b) = withdraw_rewards-moves s k pool.name _ yielded rewards addr st st1 e1 in
      let e = sym (ok-eq h2) in
      (
        amount d rewards,
        ap (λ x. x.0.pools) e ∙ p,
        λ a. ap (λ x. balance x.0.bank a d) e ∙ b a d,
        ap (λ x. amount d x.1) e ∙ take_rewards-amount _ rewards acc e2,
      )
  settle_lock-Paid false addr pool updated yielded left st st' h =
      let ((st1, period), e1, h1) =
        >>=-eq-ok (increment_pool_period s k pool.name pool.total_value_locked yielded st) _ h in
      let (p, _, b) = increment_pool_period-SameStore s k pool.name _ yielded st st1 period e1 in
      let e = sym (ok-eq h1) in
      (
        pos 0,
        ap (λ x. x.0.pools) e ∙ p,
        λ a. ap (λ x. balance x.0.bank a d) e ∙ ap (λ x. balance x a d) b ∙ nothing_paid a _,
        ap (λ x. amount d x.1) e ∙ sym (-ℤ_zero _),
      )

  -- The end of a handler: rewards are paid, then `moved` coins come in or go out with the locks.
  pub close :
      (pool updated pool' : FarmPool s) (st st1 st' : State s k) (left : Coins) (moved : ℤ)
      → accounted s d updated ≡ accounted s d pool
      → Paid updated.total_accumulated_rewards left st st1
      → accounted s d pool' ≡ amount d left +ℤ to_yield d updated.yielded_token_infos
      → pool'.name ≡ pool.name
      → Alike pool pool'
      → st'.pools ≡ update st1.pools pool'.name (some pool')
      → balance st'.bank yield_farming_account d ≡ balance st1.bank yield_farming_account d
      → balance st'.bank farm_account d ≡ balance st1.bank farm_account d +ℤ moved
      → held d pool'.total_value_locked ≡ held d pool.total_value_locked +ℤ moved
      → Settled pool st st'
  close pool updated pool' st st1 st' left moved keeps (x, p, b, left_eq) books name alike e by bf
        tvl =
      (
        pool',
        e
            ∙ ap (λ f. update f pool'.name (some pool')) p
            ∙ ap (λ n. update st.pools n (some pool')) name,
        name,
        alike,
        ap (λ n. n -ℤ accounted s d pool') (by ∙ b yield_farming_account)
            ∙ ap (λ n. balance st.bank yield_farming_account d -ℤ x -ℤ n) books
            ∙ rewards_left _ x (amount d left) (to_yield d updated.yielded_token_infos)
                (amount d updated.total_accumulated_rewards) left_eq
            ∙ ap (λ n. balance st.bank yield_farming_account d -ℤ n) keeps,
        ap (λ n. n -ℤ held d pool'.total_value_locked)
              (bf ∙ ap (◌+ℤ moved) (b farm_account ∙ -ℤ_zero _))
            ∙ ap (λ n. balance st.bank farm_account d +ℤ moved -ℤ n) tvl
            ∙ both _ moved _,
      )
    where
      both : (a n v : ℤ) → a +ℤ n -ℤ (v +ℤ n) ≡ a -ℤ v
      both a n v = omega int_laws

  -- handleMsgClaim pays rewards and touches no locked coin.
  pub handle_msg_claim-Settled :
      (msg : MsgClaim) (st st' : State s k)
      → handle_msg_claim s k c msg st ≡ ok st'
      → (pool : FarmPool s) × (st.pools msg.pool_name ≡ some pool) × Settled pool st st'
  unfolding handle_msg_claim
  handle_msg_claim-Settled msg st st' h =
      let (pool, e, h1) = or_fail->>=-eq-ok (st.pools msg.pool_name) _ _ h in
      let ((updated, yielded), e2, h2) =
        >>=-eq-ok (calculate_amount_yielded_between s k pool st) _ h1 in
      let ((st1, rewards), e3, h3) =
        >>=-eq-ok (withdraw_rewards s k pool.name pool.total_value_locked yielded msg.address st) _
          h2 in
      let (st2, e4, h4) = >>=-eq-ok (update_lock_info s k msg.address pool.name (pos 0) st1) _ h3 in
      let (acc, e5, h5) =
        >>=-eq-ok (take_rewards s k c updated.total_accumulated_rewards rewards) _ h4 in
      let (keeps, _, name, tvl, deposit, sound) =
        calculate_amount_yielded_between-keeps s d k pool updated yielded st e2 in
      let (p, _, b) =
        withdraw_rewards-moves s k pool.name _ yielded rewards msg.address st st1 e3 in
      let (p', b') = update_lock_info-moves s k msg.address pool.name (pos 0) st1 st2 e4 in
      let paid : Paid updated.total_accumulated_rewards acc st st2 = (
        amount d rewards,
        p' ∙ p,
        λ a. ap (λ x. balance x a d) b' ∙ b a d,
        take_rewards-amount _ rewards acc e5,
      ) in
      let end = sym (ok-eq h5) in
      (
        pool,
        e,
        close pool updated (record updated { total_accumulated_rewards = acc }) st st2 st' acc
            (pos 0) keeps paid refl name (deposit, sound) (ap (λ x. x.pools) end)
            (ap (λ x. balance x.bank yield_farming_account d) end)
            (ap (λ x. balance x.bank farm_account d) end ∙ sym (+ℤ_zero _))
            (ap (held d) tvl ∙ sym (+ℤ_zero _)),
      )
