-- ===== src/Farm/Rewards/Shares.antt =====
-- What the locks of one period are paid against what the period has earned.
use Prim.Native.String.{String}
use native.Mathlib.Nat.{div-mul-le_self, mul-add, add-mul, mul-le-mul_left, le_of_mul-le-mul_right}
use okexchain.Base.{
  ℕ, ◌+◌, ◌-◌, ◌*◌, ◌/◌, ◌≤◌, ◌<◌, ◌≡◌, refl, sym, subst, ap, ◌∙◌, inl, inr, ℤ, pos, negsuc,
  pos_part, ◌+ℤ◌, ◌-ℤ◌, ◌≤ℤ◌, ltb, ltb_ℤ, eqb_ℤ, int_laws, List, [], ◌∷◌, map, All, arith, true,
  false, Bool, Bool-cases, if◌then◌else◌, ◌==◌, Option, none, some, Result, ok, ◌>>=◌, >>=-eq-ok,
  or_fail->>=-eq-ok, fail_if->>-eq-ok, ok-eq, update, string_eq_refl,
}
use okexchain.Sdk.{DecMath, coin}
use okexchain.Sdk.Sets.{CoinSets, ModuleBank}
use okexchain.Farm.Types.{
  FarmError, LockInfo, PoolHistoricalRewards, PoolCurrentRewards, State, update_at, previous_period,
}
use okexchain.Farm.Rewards.{
  current_ratio, calculate_lock_rewards_between, calculate_rewards, decrement_reference_count,
  increment_pool_period,
}

unfoldable pub total_of : List ℕ → ℕ
total_of [] = 0
total_of (n ∷ ns) = n + total_of ns

unfoldable pub paid_for : ℕ → ℕ → List ℕ → ℕ
paid_for ratio unit [] = 0
paid_for ratio unit (n ∷ ns) = ratio * n / unit + paid_for ratio unit ns

paid_for-le : (ratio unit : ℕ) (ns : List ℕ) → paid_for ratio unit ns * unit ≤ ratio * total_of ns
unfolding total_of paid_for
paid_for-le ratio unit [] = omega arith
paid_for-le ratio unit (n ∷ ns) =
    let one = div-mul-le_self (ratio * n) unit in
    let rest = paid_for-le ratio unit ns in
    rw (mul-add ratio n (total_of ns), add-mul (ratio * n / unit) (paid_for ratio unit ns) unit)
      (omega arith)

paid_for-bounded :
    (reward unit total : ℕ) (ns : List ℕ)
    → 0 < unit
    → total_of ns ≤ total
    → paid_for (reward * unit / total) unit ns ≤ reward
paid_for-bounded reward unit total ns h g =
    let a = paid_for-le (reward * unit / total) unit ns in
    let b = mul-le-mul_left (reward * unit / total) g in
    let e = div-mul-le_self (reward * unit) total in le_of_mul-le-mul_right (omega arith) h

-- The size of a lock
abbrev pub locked : LockInfo → ℕ
locked lock = pos_part lock.amount.amount

module _ {m : DecMath} (s : CoinSets m) (k : ModuleBank s) where
  open s use {Coins, amount, add2, sub, mul_dec_truncate}

  -- What some locks are paid together when a period ends, each by calculateRewards.
  unfoldable pub paid_together :
      String → String → ℕ → List LockInfo → State s k → Result FarmError ℤ
  paid_together d pool period [] st = ok (pos 0)
  paid_together d pool period (lock ∷ locks) st = do
    rewards ← calculate_rewards s k pool period lock st
    rest ← paid_together d pool period locks st
    ok (amount d rewards +ℤ rest)

  -- The ratios of the store at the two ends of a period differ by `q` units.
  record Grows (d pool : String) (ref period q : ℕ) (st : State s k) : Type 0 where
    ended : PoolHistoricalRewards s
    found : st.historical pool period ≡ some ended
    grown :
        (started : PoolHistoricalRewards s)
        → st.historical pool ref ≡ some started
        → amount d ended.cumulative_reward_ratio ≡ amount d started.cumulative_reward_ratio +ℤ pos q

  calculate_lock_rewards_between-le :
      (d pool denom : String) (ref period q : ℕ) (size : ℤ) (st : State s k) (rewards : Coins)
      → Grows d pool ref period q st
      → calculate_lock_rewards_between s k pool ref period (coin denom size) st ≡ ok rewards
      → amount d rewards ≤ℤ pos (q * pos_part size / m.unit)
  unfolding calculate_lock_rewards_between
  calculate_lock_rewards_between-le d pool denom ref period q size st rewards g h =
      let (_, h1) = fail_if->>-eq-ok (ltb period ref) _ _ h in
      let (not_negative, h2) = fail_if->>-eq-ok (ltb_ℤ size (pos 0)) _ _ h1 in
      let (started, e1, h3) = or_fail->>=-eq-ok (st.historical pool ref) _ _ h2 in
      let (ended, e2, h4) = or_fail->>=-eq-ok (st.historical pool period) _ _ h3 in
      let (difference, e3, h5) =
        or_fail->>=-eq-ok (sub ended.cumulative_reward_ratio started.cumulative_reward_ratio) _ _
          h4 in
      let same : ended ≡ g.ended = some_value (sym e2 ∙ g.found) in
      let ratio : amount d difference ≡ pos q =
        s.amount-sub d _ _ _ e3
        ∙ ap (λ x. amount d x.cumulative_reward_ratio -ℤ amount d started.cumulative_reward_ratio)
            same
        ∙ ap (λ n. n -ℤ amount d started.cumulative_reward_ratio) (g.grown started e1)
        ∙ left (amount d started.cumulative_reward_ratio) (pos q) in
      subst (λ x. amount d x ≤ℤ pos (q * pos_part size / m.unit)) (ok-eq h5)
        (rounded size not_negative difference ratio)
    where
      some_value : {x y : PoolHistoricalRewards s} → some x ≡ some y → x ≡ y
      some_value e = cc

      left : (a b : ℤ) → a +ℤ b -ℤ a ≡ b
      left a b = omega int_laws

      rounded :
          (size : ℤ)
          → ltb_ℤ size (pos 0) ≡ false
          → (ratio : Coins) → amount d ratio ≡ pos q
          → amount d (mul_dec_truncate ratio size) ≤ℤ pos (q * pos_part size / m.unit)
      rounded (pos n) h ratio e =
          rw (s.amount-mul_dec_truncate d ratio (pos n), e, m.mul_truncate-pos q n) (omega arith)
      rounded (negsuc n) h ratio e = absurd (ground arith)

  calculate_rewards-le :
      (d pool : String) (ref period q : ℕ) (lock : LockInfo) (st : State s k) (rewards : Coins)
      → Grows d pool ref period q st
      → lock.reference_period ≡ ref
      → calculate_rewards s k pool period lock st ≡ ok rewards
      → amount d rewards ≤ℤ pos (q * locked lock / m.unit)
  unfolding calculate_rewards
  calculate_rewards-le d pool ref period q lock st rewards g at h =
      elim (Bool-cases (eqb_ℤ lock.start_block_height st.height)) [
        | inl t ↦
            subst (λ x. amount d x ≤ℤ pos (q * locked lock / m.unit)) (ok-eq (rw t at h))
              (rw (s.amount-empty d) (omega arith))
        | inr t ↦
            calculate_lock_rewards_between-le d pool lock.amount.denom ref period q
              lock.amount.amount st rewards g
              (subst
                (λ p. calculate_lock_rewards_between s k pool p period lock.amount st ≡ ok rewards)
                at (rw t at h))
      ]

  paid_together-le :
      (d pool : String) (ref period q : ℕ) (locks : List LockInfo) (st : State s k) (paid : ℤ)
      → Grows d pool ref period q st
      → All (λ lock. lock.reference_period ≡ ref) locks
      → paid_together d pool period locks st ≡ ok paid
      → paid ≤ℤ pos (paid_for q m.unit (map locked locks))
  unfolding paid_together paid_for
  paid_together-le d pool ref period q [] st paid g at h =
      subst (λ x. x ≤ℤ pos 0) (ok-eq h) (omega arith)
  paid_together-le d pool ref period q (lock ∷ locks) st paid g (here, later) h =
      let (rewards, e1, h1) = >>=-eq-ok (calculate_rewards s k pool period lock st) _ h in
      let (rest, e2, h2) = >>=-eq-ok (paid_together d pool period locks st) _ h1 in
      subst (λ x. x ≤ℤ pos (q * locked lock / m.unit + paid_for q m.unit (map locked locks)))
        (ok-eq h2)
        (both (amount d rewards) rest (q * locked lock / m.unit) _
          (calculate_rewards-le d pool ref period q lock st rewards g here e1)
          (paid_together-le d pool ref period q locks st rest g later e2))
    where
      both : (a b : ℤ) (n n' : ℕ) → a ≤ℤ pos n → b ≤ℤ pos n' → a +ℤ b ≤ℤ pos (n + n')
      both a b n n' h h' = omega int_laws

  at_pool :
      (f : String → ℕ → Option (PoolHistoricalRewards s)) (pool : String)
      (g : ℕ → Option (PoolHistoricalRewards s))
      → update f pool g pool ≡ g
  at_pool f pool g = rw (string_eq_refl pool) refl

  at_ref :
      (ref : ℕ) (value : Option (PoolHistoricalRewards s))
      (g : ℕ → Option (PoolHistoricalRewards s))
      → update_at g ref value ref ≡ value
  at_ref ref value g = let self : (ref == ref) ≡ true = ground arith in rw self refl

  -- After decrementReferenceCount the period has the ratio that it had, if it is still there.
  decrement_reference_count-ratio :
      (d pool : String) (ref : ℕ) (historical : PoolHistoricalRewards s) (st st1 : State s k)
      → st.historical pool ref ≡ some historical
      → decrement_reference_count s k pool ref st ≡ ok st1
      → (started : PoolHistoricalRewards s) → st1.historical pool ref ≡ some started
      → amount d started.cumulative_reward_ratio ≡ amount d historical.cumulative_reward_ratio
  unfolding decrement_reference_count
  decrement_reference_count-ratio d pool ref historical st st1 e h started now =
      let (old, e1, h1) = or_fail->>=-eq-ok (st.historical pool ref) _ _ h in
      let (_, h2) = fail_if->>-eq-ok (old.reference_count == 0) _ _ h1 in
      let less : PoolHistoricalRewards s = record old {
        reference_count = old.reference_count - 1;
      } in
      let value : Option (PoolHistoricalRewards s) =
        if old.reference_count - 1 == 0 then none else some less in
      let written : value ≡ some started =
        sym (at_ref ref value (st.historical pool))
        ∙ ap (λ g. g ref)
            (sym (at_pool st.historical pool (update_at (st.historical pool) ref value)))
        ∙ ap (λ x. x.historical pool ref) (ok-eq h2)
        ∙ now in
      from (old.reference_count - 1 == 0) less written ∙ ap (λ x. ratio_of x) (sym e1 ∙ e)
    where
      ratio_of : Option (PoolHistoricalRewards s) → ℤ
      ratio_of none = pos 0
      ratio_of (some x) = amount d x.cumulative_reward_ratio

      from :
          (b : Bool) (x : PoolHistoricalRewards s)
          → (if b then none else some x) ≡ some started
          → amount d started.cumulative_reward_ratio ≡ amount d x.cumulative_reward_ratio
      from true x h = cc
      from false x h = ap ratio_of (sym h)

  increment_pool_period-Grows :
      (d denom pool : String) (total reward period : ℕ) (yielded : Coins)
      (current : PoolCurrentRewards s) (st st1 : State s k)
      → 0 < total
      → st.current pool ≡ some current
      → amount d (add2 current.rewards yielded) ≡ pos reward
      → increment_pool_period s k pool (coin denom (pos total)) yielded st ≡ ok (st1, period)
      → Grows d pool (previous_period current.period) period (reward * m.unit / total) st1
  unfolding increment_pool_period previous_period
  increment_pool_period-Grows d denom pool total reward period yielded current st st1 positive now
        earned h =
      let before = previous_period current.period in
      let (historical, e1, h1) = or_fail->>=-eq-ok (st.historical pool before) _ _ (rw now at h) in
      let (st2, e2, h2) = >>=-eq-ok (decrement_reference_count s k pool before st) _ h1 in
      let ratio = current_ratio s k (coin denom (pos total)) (add2 current.rewards yielded) in
      let ended : PoolHistoricalRewards s = record {
        cumulative_reward_ratio = add2 historical.cumulative_reward_ratio ratio;
        reference_count = 1;
      } in
      let own =
        at_pool st2.historical pool (update_at (st2.historical pool) current.period (some ended)) in
      record {
        ended = ended;
        found =
            ap (λ x. x.0.historical pool x.1) (sym (ok-eq h2))
            ∙ ap (λ g. g current.period) own
            ∙ at_ref current.period (some ended) (st2.historical pool);
        grown = λ started e.
            s.amount-add2 d historical.cumulative_reward_ratio ratio
            ∙ ap (λ n. n +ℤ amount d ratio)
                (sym (
                  decrement_reference_count-ratio d pool before historical st st2 e1 e2 started (
                    sym (at_before current.period (some ended) (st2.historical pool))
                    ∙ sym (ap (λ g. g before) own)
                    ∙ ap (λ x. x.0.historical pool before) (ok-eq h2)
                    ∙ e)))
            ∙ ap (◌+ℤ◌ (amount d started.cumulative_reward_ratio))
                (ratio_amount (add2 current.rewards yielded) earned);
      }
    where
      differs : (p : ℕ) → (p == previous_period p) ≡ false
      differs p = ground arith

      at_before :
          (p : ℕ) (value : Option (PoolHistoricalRewards s))
          (g : ℕ → Option (PoolHistoricalRewards s))
          → update_at g p value (previous_period p) ≡ g (previous_period p)
      at_before p value g = rw (differs p) refl

      ratio_amount :
          (rewards : Coins)
          → amount d rewards ≡ pos reward
          → amount d (current_ratio s k (coin denom (pos total)) rewards)
            ≡ pos (reward * m.unit / total)
      ratio_amount rewards e =
          let nonzero : eqb_ℤ (pos total) (pos 0) ≡ false = ground arith in
          rw nonzero (
            s.amount-quo_dec_truncate d rewards (pos total)
            ∙ ap (λ r. m.quo_truncate r (pos total)) e
            ∙ m.quo_truncate-pos reward total positive)

  -- Let IncrementPoolPeriod end a period in which the pool has earned a reward that is not negative, with
  -- a total above zero of locked tokens. Locks that refer to the period before and whose amounts, as
  -- far as they are positive, come to no more than the total are paid together by calculateRewards,
  -- where it pays them all, no more than the reward.
  pub paid_together-increment_pool_period :
      (d denom pool : String) (total reward period : ℕ) (yielded : Coins)
      (current : PoolCurrentRewards s) (locks : List LockInfo) (st st1 : State s k) (paid : ℤ)
      → 0 < total
      → st.current pool ≡ some current
      → amount d (add2 current.rewards yielded) ≡ pos reward
      → increment_pool_period s k pool (coin denom (pos total)) yielded st ≡ ok (st1, period)
      → All (λ lock. lock.reference_period ≡ previous_period current.period) locks
      → total_of (map locked locks) ≤ total
      → paid_together d pool period locks st1 ≡ ok paid
      → paid ≤ℤ pos reward
  paid_together-increment_pool_period d denom pool total reward period yielded current locks st st1
        paid positive now earned ended refers enough h =
      let le =
        paid_together-le d pool (previous_period current.period) period (reward * m.unit / total)
          locks st1 paid
          (increment_pool_period-Grows d denom pool total reward period yielded current st st1
            positive now earned ended)
          refers h in
      let bounded = paid_for-bounded reward m.unit total (map locked locks) m.unit_pos enough in
      omega arith
