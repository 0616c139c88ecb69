-- ===== src/Farm/Rewards/Moves.antt =====
-- What the functions of calc.go do to the pools, the locks and the bank.
use Prim.Native.String.{String}
use text.Mathlib.Text.{◌==◌ as string_eq}
use okexchain.Base.{
  ℕ, ltb, ◌==◌, ◌≡◌, sym, ap, ◌∙◌, inl, inr, ℤ, pos, ◌+ℤ◌, ◌-ℤ◌, eqb_ℤ, -ℤ_zero, Bool, true, false,
  Bool-cases, if◌then◌else◌, ok, >>=-eq-ok, or_fail->>=-eq-ok, fail_if->>-eq-ok, ok-eq,
}
use okexchain.Sdk.{SdkDec, DecMath, Coin}
use okexchain.Sdk.Sets.{CoinSets, ModuleBank, at_account}
use okexchain.Farm.Types.{State, previous_period, yield_farming_account}
use okexchain.Farm.Rewards.{
  increment_reference_count, decrement_reference_count, increment_pool_period, calculate_rewards,
  pay_rewards, withdraw_rewards, update_lock_info,
}

module _ {m : DecMath} (s : CoinSets m) (k : ModuleBank s) where
  open s use {Coins, amount}
  open k use {balance}

  -- Only the periods and the counts have changed.
  abbrev pub SameStore : State s k → State s k → Type 0
  SameStore st st' = (st'.pools ≡ st.pools) × (st'.locks ≡ st.locks) × (st'.bank ≡ st.bank)

  increment_reference_count-SameStore :
      (pool : String) (period : ℕ) (st st' : State s k)
      → increment_reference_count s k pool period st ≡ ok st'
      → SameStore st st'
  unfolding increment_reference_count
  increment_reference_count-SameStore pool period st st' h =
      let (historical, _, h1) = or_fail->>=-eq-ok (st.historical pool period) _ _ h in
      let (_, h2) = fail_if->>-eq-ok (ltb 2 historical.reference_count) _ _ h1 in
      let e = sym (ok-eq h2) in (ap (λ x. x.pools) e, ap (λ x. x.locks) e, ap (λ x. x.bank) e)

  decrement_reference_count-SameStore :
      (pool : String) (period : ℕ) (st st' : State s k)
      → decrement_reference_count s k pool period st ≡ ok st'
      → SameStore st st'
  unfolding decrement_reference_count
  decrement_reference_count-SameStore pool period st st' h =
      let (historical, _, h1) = or_fail->>=-eq-ok (st.historical pool period) _ _ h in
      let (_, h2) = fail_if->>-eq-ok (historical.reference_count == 0) _ _ h1 in
      let e = sym (ok-eq h2) in (ap (λ x. x.pools) e, ap (λ x. x.locks) e, ap (λ x. x.bank) e)

  pub increment_pool_period-SameStore :
      (pool : String) (total : Coin) (yielded : Coins) (st st' : State s k) (period : ℕ)
      → increment_pool_period s k pool total yielded st ≡ ok (st', period)
      → SameStore st st'
  unfolding increment_pool_period
  increment_pool_period-SameStore pool total yielded st st' period h =
      let (current, _, h1) = or_fail->>=-eq-ok (st.current pool) _ _ h in
      let (historical, _, h2) =
        or_fail->>=-eq-ok (st.historical pool (previous_period current.period)) _ _ h1 in
      let (st1, e3, h3) =
        >>=-eq-ok (decrement_reference_count s k pool (previous_period current.period) st) _ h2 in
      let (p, l, b) = decrement_reference_count-SameStore pool _ st st1 e3 in
      let e = sym (ok-eq h3) in
      (ap (λ x. x.0.pools) e ∙ p, ap (λ x. x.0.locks) e ∙ l, ap (λ x. x.0.bank) e ∙ b)

  pay_rewards-moves :
      (addr : String) (rewards : Coins) (st st' : State s k)
      → pay_rewards s k addr rewards st ≡ ok st'
      → (st'.pools ≡ st.pools)
        × (st'.locks ≡ st.locks)
        × ((b d : String)
            → balance st'.bank b d
              ≡ balance st.bank b d -ℤ at_account yield_farming_account b (amount d rewards))
  unfolding pay_rewards
  pay_rewards-moves addr rewards st st' h = elim (Bool-cases (s.is_zero rewards)) [
    | inl t ↦
        let e = sym (ok-eq (rw t at h)) in
        (
          ap (λ x. x.pools) e,
          ap (λ x. x.locks) e,
          λ b d.
              ap (λ x. balance x.bank b d) e
              ∙ nothing (string_eq yield_farming_account b) _ _ (s.amount-is_zero d rewards t),
        )
    | inr t ↦
        let (bank, paid, h1) =
          or_fail->>=-eq-ok (k.module_to_account yield_farming_account addr rewards st.bank) _ _
            (rw t at h) in
        let e = sym (ok-eq h1) in
        (
          ap (λ x. x.pools) e,
          ap (λ x. x.locks) e,
          λ b d.
              ap (λ x. balance x.bank b d) e
              ∙ k.module_to_account-balance addr yield_farming_account b d rewards st.bank bank
                  paid,
        )
  ]
    where
      nothing : (test : Bool) (a n : ℤ) → n ≡ pos 0 → a ≡ a -ℤ (if test then n else pos 0)
      nothing true a n e = sym (-ℤ_zero a) ∙ ap (◌-ℤ◌ a) (sym e)
      nothing false a n e = sym (-ℤ_zero a)

  -- WithdrawRewards pays the rewards out of the yield farming account.
  pub withdraw_rewards-moves :
      (pool : String) (total : Coin) (yielded rewards : Coins) (addr : String) (st st' : State s k)
      → withdraw_rewards s k pool total yielded addr st ≡ ok (st', rewards)
      → (st'.pools ≡ st.pools)
        × (st'.locks ≡ st.locks)
        × ((b d : String)
            → balance st'.bank b d
              ≡ balance st.bank b d -ℤ at_account yield_farming_account b (amount d rewards))
  unfolding withdraw_rewards
  withdraw_rewards-moves pool total yielded rewards addr st st' h =
      let (lock_info, _, h1) = or_fail->>=-eq-ok (st.locks addr pool) _ _ h in
      let ((st1, ending), e2, h2) =
        >>=-eq-ok (increment_pool_period s k pool total yielded st) _ h1 in
      let (r, _, h3) = >>=-eq-ok (calculate_rewards s k pool ending lock_info st1) _ h2 in
      let (st2, e4, h4) = >>=-eq-ok (pay_rewards s k addr r st1) _ h3 in
      let (st3, e5, h5) =
        >>=-eq-ok (decrement_reference_count s k pool lock_info.reference_period st2) _ h4 in
      let (p1, l1, b1) = increment_pool_period-SameStore pool total yielded st st1 ending e2 in
      let (p2, l2, b2) = pay_rewards-moves addr r st1 st2 e4 in
      let (p3, l3, b3) = decrement_reference_count-SameStore pool _ st2 st3 e5 in
      let e = ok-eq h5 in
      (
        ap (λ x. x.0.pools) (sym e) ∙ p3 ∙ p2 ∙ p1,
        ap (λ x. x.0.locks) (sym e) ∙ l3 ∙ l2 ∙ l1,
        λ b d.
            ap (λ x. balance x.0.bank b d) (sym e)
            ∙ ap (λ x. balance x b d) b3
            ∙ b2 b d
            ∙ ap (λ x. balance x b d -ℤ at_account yield_farming_account b (amount d r)) b1
            ∙ ap (λ x. balance st.bank b d -ℤ at_account yield_farming_account b (amount d x.1)) e,
      )

  -- UpdateLockInfo leaves the pools and the bank alone.
  pub update_lock_info-moves :
      (addr pool : String) (changed : SdkDec) (st st' : State s k)
      → update_lock_info s k addr pool changed st ≡ ok st'
      → (st'.pools ≡ st.pools) × (st'.bank ≡ st.bank)
  unfolding update_lock_info
  update_lock_info-moves addr pool changed st st' h =
      let (current, _, h1) = or_fail->>=-eq-ok (st.current pool) _ _ h in
      let (info, _, h2) = or_fail->>=-eq-ok (st.locks addr pool) _ _ h1 in
      elim (Bool-cases (eqb_ℤ (info.amount.amount +ℤ changed) (pos 0))) [
        | inl t ↦ let e = sym (ok-eq (rw t at h2)) in (ap (λ x. x.pools) e, ap (λ x. x.bank) e)
        | inr t ↦
            let (st1, e1, h3) =
              >>=-eq-ok (increment_reference_count s k pool (previous_period current.period) st) _
                (rw t at h2) in
            let (p, _, b) = increment_reference_count-SameStore pool _ st st1 e1 in
            let e = sym (ok-eq h3) in (ap (λ x. x.pools) e ∙ p, ap (λ x. x.bank) e ∙ b)
      ]
