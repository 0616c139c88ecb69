-- ===== src/Farm/Books/Pools.antt =====
-- handleMsgCreatePool and handleMsgDestroyPool as writes of one pool.
use Prim.Native.String.{String}
use text.Mathlib.Text.{◌==◌ as string_eq}
use okexchain.Base.{
  update, ◌≡◌, refl, sym, ap, ◌∙◌, inl, inr, ℤ, pos, ◌+ℤ◌, ◌-ℤ◌, ltb_ℤ, leb_ℤ, eqb_ℤ, int_laws,
  eq_of_parts, +ℤ_zero, -ℤ_zero, Bool, true, false, not, ◌&&◌, Bool-cases, List, [], ◌∷◌, Option,
  none, some, arith, ok, >>=-eq-ok, or_fail->>=-eq-ok, fail_if->>-eq-ok, ok-eq,
}
use okexchain.Sdk.{DecMath, Coin, coin, CoinMath}
use okexchain.Sdk.Coins.{held}
use okexchain.Sdk.Sets.{CoinSets, ModuleBank, at_account}
use okexchain.Farm.Types.{
  FarmPool, YieldedTokenInfo, State, farm_account, yield_farming_account, MsgCreatePool,
  MsgDestroyPool,
}
use okexchain.Farm.Yield.{calculate_amount_yielded_between}
use okexchain.Farm.Yield.Laws.{none_negative, calculate_amount_yielded_between-keeps, to_yield}
use okexchain.Farm.Handler.{
  to_coins, is_some, is_exhausted, all_exhausted, finished, pay, handle_msg_create_pool,
  handle_msg_destroy_pool,
}
use okexchain.Farm.Books.{owed, kept, fits, fits_parts, fits_of_parts, Writes}

none_of : {A : Type 0} (o : Option A) → is_some o ≡ false → o ≡ none
none_of none h = refl
none_of (some a) h = cc

and_true : (a b : Bool) → (a && b) ≡ true → (a ≡ true) × (b ≡ true)
and_true false b h = cc
and_true true b h = (refl, h)

squeezed : (a : ℤ) → not (ltb_ℤ (pos 0) a) ≡ true → leb_ℤ (pos 0) a ≡ true → a ≡ pos 0
squeezed a h g = ground (arith, eq_of_parts a (pos 0))

equal_zero : (a : ℤ) → eqb_ℤ a (pos 0) ≡ true → a ≡ pos 0
equal_zero a h = ground (arith, eq_of_parts a (pos 0))

module _ {m : DecMath} (s : CoinSets m) (k : ModuleBank s) (c : CoinMath) (d : String) where
  open s use {Coins, amount, empty}
  open k use {balance}

  held_at_zero : (x : Coin) → x.amount ≡ pos 0 → held d x ≡ pos 0
  held_at_zero x h = elim (Bool-cases (string_eq x.denom d)) [ inl t ↦ rw t h | inr t ↦ rw t refl ]

  -- The fee goes elsewhere; the deposit comes into the farm account, and a new pool is written.
  pub handle_msg_create_pool-Writes :
      (msg : MsgCreatePool) (st st' : State s k)
      → string_eq st.fee_collector farm_account ≡ false
      → string_eq st.fee_collector yield_farming_account ≡ false
      → leb_ℤ (pos 0) st.params.create_pool_deposit.amount ≡ true
      → handle_msg_create_pool s k c msg st ≡ ok st'
      → Writes s k d msg.pool_name (pos 0) st st'
  unfolding handle_msg_create_pool owed kept to_yield
  handle_msg_create_pool-Writes msg st st' not_farm not_yield sign h =
      let (fresh, h1) = fail_if->>-eq-ok (is_some (st.pools msg.pool_name)) _ _ h in
      let (_, h2) = fail_if->>-eq-ok (not (st.token_exist msg.min_lock_amount.denom)) _ _ h1 in
      let (_, h3) = fail_if->>-eq-ok (not (st.token_exist msg.yielded_symbol)) _ _ h2 in
      let fee = to_coins s k c st.params.create_pool_fee in
      let deposit = st.params.create_pool_deposit in
      let (bank1, e4, h4) =
        or_fail->>=-eq-ok (k.account_to_module msg.owner st.fee_collector fee st.bank) _ _ h3 in
      let (bank2, e5, h5) =
        or_fail->>=-eq-ok
          (k.account_to_module msg.owner farm_account (to_coins s k c deposit) bank1) _ _ h4 in
      let e = sym (none_of (st.pools msg.pool_name) fresh) in
      let paid = λ (a : String).
        k.account_to_module-balance msg.owner st.fee_collector a d _ st.bank bank1 e4 in
      let put =
        λ (a : String). k.account_to_module-balance msg.owner farm_account a d _ bank1 bank2 e5 in
      let end = sym (ok-eq h5) in
      let info : YieldedTokenInfo = record {
        remaining_amount = coin msg.yielded_symbol (pos 0);
        start_block_height_to_yield = pos 0;
        amount_yielded_per_block = pos 0;
      } in
      let pool : FarmPool s = record {
        owner = msg.owner;
        name = msg.pool_name;
        min_lock_amount = msg.min_lock_amount;
        deposit_amount = deposit;
        total_value_locked = coin msg.min_lock_amount.denom (pos 0);
        yielded_token_infos = info ∷ [];
        total_accumulated_rewards = empty;
      } in
      (
        some pool,
        ap (λ x. x.pools) end,
        fits_of_parts s k d msg.pool_name pool refl (unfold none_negative in refl) sign,
        opened _ _ _ _
              (ap (λ x. balance x.bank yield_farming_account d) end
                ∙ put yield_farming_account
                ∙ +ℤ_zero _
                ∙ paid yield_farming_account
                ∙ rw not_yield (+ℤ_zero _))
              (s.amount-empty d) (held_at_zero info.remaining_amount refl)
            ∙ ap (λ o. balance st.bank yield_farming_account d -ℤ owed s k d o) e,
        stored _ _ _ _ _ _ (ap (λ x. balance x.bank farm_account d) end ∙ put farm_account)
              (paid farm_account ∙ rw not_farm (+ℤ_zero _))
              (s.amount-of_amount d deposit.denom deposit.amount)
              (held_at_zero pool.total_value_locked refl)
            ∙ ap (λ o. balance st.bank farm_account d -ℤ kept s k d o) e,
      )
    where
      nothing : (b : ℤ) → b +ℤ pos 0 -ℤ (pos 0 +ℤ (pos 0 +ℤ pos 0)) ≡ b -ℤ pos 0
      nothing b = omega int_laws

      opened :
          (b' b a h : ℤ)
          → b' ≡ b
          → a ≡ pos 0
          → h ≡ pos 0
          → b' +ℤ pos 0 -ℤ (a +ℤ (h +ℤ pos 0)) ≡ b -ℤ pos 0
      opened b' b a h e f g = rw (e, f, g) (nothing b)

      cancels : (b h : ℤ) → b +ℤ h -ℤ (pos 0 +ℤ h) ≡ b -ℤ pos 0
      cancels b h = omega int_laws

      stored :
          (b' n b x h v : ℤ) → b' ≡ n +ℤ x → n ≡ b → x ≡ h → v ≡ pos 0 → b' -ℤ (v +ℤ h) ≡ b -ℤ pos 0
      stored b' n b x h v e f q g = rw (e, f, q, g) (cancels b h)

  pay-balance :
      (idle : Bool) (account addr : String) (coins : Coins) (st st' : State s k)
      → pay s k c idle account addr coins st ≡ ok st'
      → (idle ≡ true → amount d coins ≡ pos 0)
      → (st'.pools ≡ st.pools)
        × ((b : String)
            → balance st'.bank b d ≡ balance st.bank b d -ℤ at_account account b (amount d coins))
  pay-balance true account addr coins st st' h zero =
      let e = sym (ok-eq h) in
      (
        ap (λ x. x.pools) e,
        λ b. ap (λ x. balance x.bank b d) e ∙ elim (Bool-cases (string_eq account b)) [
          | inl t ↦ rw (t, zero refl) (sym (-ℤ_zero _))
          | inr t ↦ rw t (sym (-ℤ_zero _))
        ],
      )
  pay-balance false account addr coins st st' h zero =
      let (bank, e1, h1) =
        or_fail->>=-eq-ok (k.module_to_account account addr coins st.bank) _ _ h in
      let e = sym (ok-eq h1) in
      (
        ap (λ x. x.pools) e,
        λ b.
            ap (λ x. balance x.bank b d) e
            ∙ k.module_to_account-balance addr account b d coins st.bank bank e1,
      )

  exhausted-to_yield :
      (infos : List YieldedTokenInfo)
      → all_exhausted infos ≡ true
      → none_negative infos ≡ true
      → to_yield d infos ≡ pos 0
  unfolding all_exhausted none_negative to_yield
  exhausted-to_yield [] h g = refl
  exhausted-to_yield (info ∷ infos) h g =
      let (h1, h2) = and_true (is_exhausted info) (all_exhausted infos) h in
      let (g1, g2) =
        and_true (leb_ℤ (pos 0) info.remaining_amount.amount) (none_negative infos) g in
      rw
        (
          held_at_zero info.remaining_amount (squeezed info.remaining_amount.amount h1 g1),
          exhausted-to_yield infos h2 g2,
        )
        (+ℤ_zero (pos 0))

  finished-none :
      (pool : FarmPool s)
      → finished s k c pool ≡ true
      → none_negative pool.yielded_token_infos ≡ true
      → (to_yield d pool.yielded_token_infos ≡ pos 0) × (held d pool.total_value_locked ≡ pos 0)
  unfolding finished
  finished-none pool h g =
      let (h1, h2) = and_true (all_exhausted pool.yielded_token_infos) _ h in
      (
        exhausted-to_yield pool.yielded_token_infos h1 g,
        held_at_zero pool.total_value_locked (equal_zero _ h2),
      )

  affirmed : (a : Bool) → not a ≡ false → a ≡ true
  affirmed true h = refl
  affirmed false h = cc

  -- The rewards and the deposit are paid out, and the pool is deleted.
  pub handle_msg_destroy_pool-Writes :
      (msg : MsgDestroyPool) (st st' : State s k)
      → fits s k d msg.pool_name (st.pools msg.pool_name) ≡ true
      → handle_msg_destroy_pool s k c msg st ≡ ok st'
      → Writes s k d msg.pool_name (pos 0) st st'
  unfolding handle_msg_destroy_pool owed kept
  handle_msg_destroy_pool-Writes msg st st' fit h =
      let (pool, e, h1) = or_fail->>=-eq-ok (st.pools msg.pool_name) _ _ h in
      let (_, h2) = fail_if->>-eq-ok (not (string_eq pool.owner msg.owner)) _ _ h1 in
      let ((updated, yielded), e3, h3) =
        >>=-eq-ok (calculate_amount_yielded_between s k pool st) _ h2 in
      let (done, h4) = fail_if->>-eq-ok (not (finished s k c updated)) _ _ h3 in
      let rewards = updated.total_accumulated_rewards in
      let deposit = pool.deposit_amount in
      let (st1, e5, h5) =
        >>=-eq-ok (pay s k c (s.is_zero rewards) yield_farming_account msg.owner rewards st) _ h4 in
      let (st2, e6, h6) =
        >>=-eq-ok
          (pay s k c (not (ltb_ℤ (pos 0) deposit.amount)) farm_account msg.owner
            (to_coins s k c deposit) st1)
          _ h5 in
      let (keeps, _, _, tvl, _, sound) =
        calculate_amount_yielded_between-keeps s d k pool updated yielded st e3 in
      let (key, remain, sign) =
        fits_parts s k d msg.pool_name pool (ap (fits s k d msg.pool_name) (sym e) ∙ fit) in
      let (none_left, none_locked) = finished-none updated (affirmed _ done) (sound remain) in
      let deposited : amount d (to_coins s k c deposit) ≡ held d deposit =
        s.amount-of_amount d deposit.denom deposit.amount in
      let (p1, b1) = pay-balance _ _ _ rewards st st1 e5 (s.amount-is_zero d rewards) in
      let (p2, b2) =
        pay-balance _ _ _ (to_coins s k c deposit) st1 st2 e6
          (λ idle. deposited ∙ held_at_zero deposit (squeezed deposit.amount idle sign)) in
      let end = sym (ok-eq h6) in
      (
        none,
        ap (λ x. x.pools) end ∙ ap (λ f. update f msg.pool_name none) (p2 ∙ p1),
        unfold fits in refl,
        paid_out _ _ _ _ _
              (ap (λ x. balance x.bank yield_farming_account d) end
                ∙ b2 yield_farming_account
                ∙ -ℤ_zero _
                ∙ b1 yield_farming_account)
              none_left keeps
            ∙ ap (λ o. balance st.bank yield_farming_account d -ℤ owed s k d o) (sym e),
        given_back _ _ _ _ _ _ (ap (λ x. balance x.bank farm_account d) end ∙ b2 farm_account)
              (b1 farm_account ∙ -ℤ_zero _) deposited (ap (held d) (sym tvl) ∙ none_locked)
            ∙ ap (λ o. balance st.bank farm_account d -ℤ kept s k d o) (sym e),
      )
    where
      all_paid : (b a : ℤ) → b -ℤ a +ℤ pos 0 -ℤ pos 0 ≡ b -ℤ (a +ℤ pos 0)
      all_paid b a = omega int_laws

      paid_out :
          (b' b a l acc : ℤ)
          → b' ≡ b -ℤ a
          → l ≡ pos 0
          → a +ℤ l ≡ acc
          → b' +ℤ pos 0 -ℤ pos 0 ≡ b -ℤ acc
      paid_out b' b a l acc e f g =
          ap (λ n. n +ℤ pos 0 -ℤ pos 0) e
          ∙ all_paid b a
          ∙ ap (λ n. b -ℤ n) (ap (◌+ℤ◌ a) (sym f) ∙ g)

      all_back : (b h : ℤ) → b -ℤ h -ℤ pos 0 ≡ b -ℤ (pos 0 +ℤ h)
      all_back b h = omega int_laws

      given_back :
          (b' n b x h v : ℤ) → b' ≡ n -ℤ x → n ≡ b → x ≡ h → v ≡ pos 0 → b' -ℤ pos 0 ≡ b -ℤ (v +ℤ h)
      given_back b' n b x h v e f q g = rw (e, f, q, g) (all_back b h)
