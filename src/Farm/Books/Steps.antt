-- ===== src/Farm/Books/Steps.antt =====
-- The handlers of x/farm as writes of one pool.
use Prim.Native.String.{String}
use text.Mathlib.Text.{◌==◌ as string_eq}
use okexchain.Base.{
  update, ◌≡◌, refl, sym, ap, ◌∙◌, inl, inr, ℤ, pos, ◌+ℤ◌, ◌-ℤ◌, leb_ℤ, leb_ℤ, eqb_ℤ, int_laws,
  eq_of_parts, +ℤ_zero, true, false, not, Bool-cases, List, [], ◌∷◌, some, arith, ok, >>=-eq-ok,
  or_fail->>=-eq-ok, fail_if->>-eq-ok, ok-eq,
}
use okexchain.Sdk.{DecMath, Coin, CoinMath}
use okexchain.Sdk.Coins.{held}
use okexchain.Sdk.Sets.{CoinSets, ModuleBank}
use okexchain.Farm.Types.{
  FarmPool, YieldedTokenInfo, State, farm_account, yield_farming_account, MsgProvide,
}
use okexchain.Farm.Yield.{calculate_amount_yielded_between}
use okexchain.Farm.Yield.Laws.{
  accounted, none_negative, calculate_amount_yielded_between-keeps, to_yield,
}
use okexchain.Farm.Rewards.{increment_pool_period}
use okexchain.Farm.Rewards.Moves.{increment_pool_period-SameStore}
use okexchain.Farm.Handler.{to_coins, only_info, fund}
use okexchain.Farm.Handler.Settled.{Settled}
use okexchain.Farm.Books.{owed, kept, fits, fits_parts, fits_of_parts, Writes}

module _ {m : DecMath} (s : CoinSets m) (k : ModuleBank s) (c : CoinMath) (d : String) where
  open s use {Coins, amount}
  open k use {balance}

  -- A handler that settles a pool writes it.
  pub Settled-Writes :
      (name : String) (pool : FarmPool s) (st st' : State s k)
      → fits s k d name (st.pools name) ≡ true
      → st.pools name ≡ some pool
      → Settled s k c d pool st st'
      → Writes s k d name (pos 0) st st'
  unfolding owed kept
  Settled-Writes name pool st st' h e (pool', e', n, (f, sound), y, l) =
      let (key, remain, deposit) = fits_parts s k d name pool (ap (fits s k d name) (sym e) ∙ h) in
      (
        some pool',
        e' ∙ ap (λ a. update st.pools a (some pool')) key,
        fits_of_parts s k d name pool' (n ∙ key) (sound remain)
            (ap (λ (x : Coin). leb_ℤ (pos 0) x.amount) f ∙ deposit),
        ap (λ n. n -ℤ accounted s d pool') (+ℤ_zero _)
            ∙ y
            ∙ ap (λ o. balance st.bank yield_farming_account d -ℤ owed s k d o) (sym e),
        with_deposit _ _ _ _ _ _ l (ap (held d) f)
            ∙ ap (λ o. balance st.bank farm_account d -ℤ kept s k d o) (sym e),
      )
    where
      apart : (b v w : ℤ) → b -ℤ (v +ℤ w) ≡ b -ℤ v -ℤ w
      apart b v w = omega int_laws

      with_deposit :
          (b' v' w' b v w : ℤ) → b' -ℤ v' ≡ b -ℤ v → w' ≡ w → b' -ℤ (v' +ℤ w') ≡ b -ℤ (v +ℤ w)
      with_deposit b' v' w' b v w e f =
          apart b' v' w' ∙ ap (λ n. n -ℤ w') e ∙ ap (λ n. b -ℤ v -ℤ n) f ∙ sym (apart b v w)

  zero_of : (a : ℤ) → not (eqb_ℤ a (pos 0)) ≡ false → a ≡ pos 0
  zero_of a h = ground (arith, eq_of_parts a (pos 0))

  pub held_zero : (x : Coin) → not (eqb_ℤ x.amount (pos 0)) ≡ false → held d x ≡ pos 0
  held_zero x h = elim (Bool-cases (string_eq x.denom d)) [
    | inl t ↦ rw t (zero_of x.amount h)
    | inr t ↦ rw t refl
  ]

  only_info-to_yield :
      (infos : List YieldedTokenInfo) (left : YieldedTokenInfo)
      → only_info infos ≡ ok left
      → not (eqb_ℤ left.remaining_amount.amount (pos 0)) ≡ false
      → to_yield d infos ≡ pos 0
  unfolding to_yield
  only_info-to_yield [] left h e = cc
  only_info-to_yield (info ∷ other ∷ infos) left h e = cc
  only_info-to_yield (info ∷ []) left h e =
      +ℤ_zero _
      ∙ ap (λ (x : YieldedTokenInfo). held d x.remaining_amount) (ok-eq h)
      ∙ held_zero left.remaining_amount e

  pub fund-Writes :
      (name : String) (msg : MsgProvide) (pool : FarmPool s) (st st' : State s k)
      → fits s k d name (st.pools name) ≡ true
      → st.pools name ≡ some pool
      → leb_ℤ (pos 0) msg.amount.amount ≡ true
      → fund s k c msg pool st ≡ ok st'
      → Writes s k d name (pos 0) st st'
  unfolding fund owed kept to_yield
  fund-Writes name msg pool st st' fit e sign h =
      let ((updated, yielded), e1, h1) =
        >>=-eq-ok (calculate_amount_yielded_between s k pool st) _ h in
      let (left, e2, h2) = >>=-eq-ok (only_info updated.yielded_token_infos) _ h1 in
      let (none_left, h3) =
        fail_if->>-eq-ok (not (eqb_ℤ left.remaining_amount.amount (pos 0))) _ _ h2 in
      let ((st1, period), e4, h4) =
        >>=-eq-ok (increment_pool_period s k pool.name pool.total_value_locked yielded st) _ h3 in
      let (bank, e5, h5) =
        or_fail->>=-eq-ok
          (k.account_to_module msg.address yield_farming_account (to_coins s k c msg.amount)
            st1.bank)
          _ _ h4 in
      let (keeps, _, same_name, tvl, deposit, sound) =
        calculate_amount_yielded_between-keeps s d k pool updated yielded st e1 in
      let (p, _, b) = increment_pool_period-SameStore s k pool.name _ yielded st st1 period e4 in
      let (key, remain, sign_deposit) =
        fits_parts s k d name pool (ap (fits s k d name) (sym e) ∙ fit) in
      let moves = λ (a : String).
        k.account_to_module-balance msg.address yield_farming_account a d _ st1.bank bank e5 in
      let end = sym (ok-eq h5) in
      let provided : YieldedTokenInfo = record {
        remaining_amount = msg.amount;
        start_block_height_to_yield = msg.start_height_to_yield;
        amount_yielded_per_block = msg.amount_yielded_per_block;
      } in
      let pool' : FarmPool s = record updated { yielded_token_infos = provided ∷ [] } in
      (
        some pool',
        ap (λ x. x.pools) end
            ∙ ap (λ f. update f updated.name (some pool')) p
            ∙ ap (λ a. update st.pools a (some pool')) (same_name ∙ key),
        fits_of_parts s k d name pool' (same_name ∙ key) (unfold none_negative in rw sign refl)
            (ap (λ (x : Coin). leb_ℤ (pos 0) x.amount) deposit ∙ sign_deposit),
        funded _ _ _ _ _ _ _
              (ap (λ x. balance x.bank yield_farming_account d) end
                ∙ moves yield_farming_account
                ∙ ap
                    (λ x. balance x yield_farming_account d +ℤ amount d (to_coins s k c msg.amount))
                    b)
              (s.amount-of_amount d msg.amount.denom msg.amount.amount)
              (only_info-to_yield updated.yielded_token_infos left e2 none_left) keeps
            ∙ ap (λ o. balance st.bank yield_farming_account d -ℤ owed s k d o) (sym e),
        ap (λ n. n -ℤ kept s k d (some pool'))
              (ap (λ x. balance x.bank farm_account d) end
                ∙ moves farm_account
                ∙ +ℤ_zero _
                ∙ ap (λ x. balance x farm_account d) b)
            ∙ ap
                (λ v. balance st.bank farm_account d -ℤ (held d v +ℤ held d updated.deposit_amount))
                tvl
            ∙ ap
                (λ v.
                  balance st.bank farm_account d -ℤ (held d pool.total_value_locked +ℤ held d v))
                deposit
            ∙ ap (λ o. balance st.bank farm_account d -ℤ kept s k d o) (sym e),
      )
    where
      cancels : (b h a : ℤ) → b +ℤ h +ℤ pos 0 -ℤ (a +ℤ (h +ℤ pos 0)) ≡ b -ℤ (a +ℤ pos 0)
      cancels b h a = omega int_laws

      funded :
          (b' b n h a l acc : ℤ)
          → b' ≡ b +ℤ n
          → n ≡ h
          → l ≡ pos 0
          → a +ℤ l ≡ acc
          → b' +ℤ pos 0 -ℤ (a +ℤ (h +ℤ pos 0)) ≡ b -ℤ acc
      funded b' b n h a l acc e f g q =
          ap (λ x. x +ℤ pos 0 -ℤ (a +ℤ (h +ℤ pos 0))) (e ∙ ap (◌+ℤ◌ b) f)
          ∙ cancels b h a
          ∙ ap (λ x. b -ℤ x) (ap (◌+ℤ◌ a) (sym g) ∙ q)
