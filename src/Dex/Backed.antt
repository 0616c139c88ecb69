-- ===== src/Dex/Backed.antt =====
-- The account of x/dex against what the module owes: keeper/invariant.go, and Deposit.
pub mod Withdraw
use Prim.Native.String.{String}
use text.Mathlib.Text.{◌==◌ as string_eq}
use okexchain.Base.{
  ◌≡◌, refl, sym, ap, ◌∙◌, subst, inl, inr, ℤ, pos, ◌+ℤ◌, ◌-ℤ◌, ◌≤ℤ◌, int_laws, zero_+ℤ, Bool, true,
  false, not, Option, none, some, if◌then◌else◌, Result, ok, err, ◌>>=◌, >>=-eq-ok,
  or_fail->>=-eq-ok, fail_if->>-eq-ok, ok-eq, get, put, delete, total, at_option, total-put,
  total-delete,
}
use okexchain.Sdk.{DecMath, SdkDec, Coin, coin, CoinMath}
use okexchain.Sdk.Coins.{
  held, coin_add-some, coin_add-held, coin_sub-some, coin_sub-le, coin_sub-held,
}
use okexchain.Sdk.Sets.{CoinSets, ModuleBank, at_account}
use okexchain.Dex.Types.{
  Time, TokenPair, pair_name, WithdrawInfo, DexParams, Context, DexState, dex_account, DexError,
}
use okexchain.Dex.Keeper.{
  to_coins, get_token_pair, update_token_pair, deposit, joined_withdraw, without_withdraw_time,
  set_withdraw_time, delete_withdraw_time, add_withdraw, withdraw, complete_withdraw,
}
use okexchain.Dex.Sound.{
  ArePairs, AreWithdraws, put-ArePairs, put-AreWithdraws, delete-AreWithdraws,
}

module _ {m : DecMath} (s : CoinSets m) (k : ModuleBank s) (c : CoinMath) (params : DexParams) where
  open k use {balance}
  open c use {coin_add, coin_sub, coin_is_lt}

  pub record IsSound (st : DexState s k) : Type 0 where
    pub pairs : ArePairs st.pairs
    pub withdraws : AreWithdraws st.withdraws st.withdraw_times

  -- ModuleAccountInvariant: the deposits for the pairs, and what is being withdrawn
  abbrev pub deposited : String → DexState s k → SdkDec
  deposited d st = total (λ (pair : TokenPair). held d pair.deposits) st.pairs

  abbrev pub withdrawing : String → DexState s k → SdkDec
  withdrawing d st = total (λ (info : WithdrawInfo). held d info.deposits) st.withdraws

  -- What the module's account holds beyond that.
  abbrev pub surplus : String → DexState s k → SdkDec
  surplus d st = balance st.bank dex_account d -ℤ deposited d st -ℤ withdrawing d st

  -- The stores stay sound and the surplus stays the same.
  abbrev pub Keeps : DexState s k → DexState s k → Type 0
  Keeps st st' = IsSound st' × ((d : String) → surplus d st' ≡ surplus d st)

  pub trans-Keeps : (st st' st'' : DexState s k) → Keeps st st' → Keeps st' st'' → Keeps st st''
  trans-Keeps st st' st'' (_, e) (sound, f) = (sound, λ d. f d ∙ e d)

  pub amount-to_coins : (d : String) (x : Coin) → s.amount d (to_coins s k c params x) ≡ held d x
  amount-to_coins d x = s.amount-of_amount d x.denom x.amount

  pub sum_not_negative :
      (x y z : Coin)
      → pos 0 ≤ℤ x.amount
      → pos 0 ≤ℤ y.amount
      → coin_add x y ≡ some z
      → pos 0 ≤ℤ z.amount
  sum_not_negative x y z h h' e =
      subst (λ (w : Coin). pos 0 ≤ℤ w.amount) (sym (coin_add-some c x y z e).1)
        (plus x.amount y.amount h h')
    where
      plus : (a b : ℤ) → pos 0 ≤ℤ a → pos 0 ≤ℤ b → pos 0 ≤ℤ a +ℤ b
      plus a b h h' = omega int_laws

  pub deposit-Keeps :
      (product from : String) (amount : Coin) (st st' : DexState s k)
      → pos 0 ≤ℤ amount.amount
      → IsSound st
      → deposit s k c params product from amount st ≡ ok st'
      → Keeps st st'
  unfolding deposit
  deposit-Keeps product from amount st st' rich sound h =
      let (pair, found, h1) = or_fail->>=-eq-ok (get_token_pair s k c params product st) _ _ h in
      let (_, h2) = fail_if->>-eq-ok (not (string_eq pair.owner from)) _ _ h1 in
      let (_, h3) = fail_if->>-eq-ok (not (string_eq amount.denom params.bond_denom)) _ _ h2 in
      let (bank, sent, h4) =
        or_fail->>=-eq-ok
          (k.account_to_module from dex_account (to_coins s k c params amount) st.bank) _ _ h3 in
      let (deposits, added, h5) = or_fail->>=-eq-ok (coin_add pair.deposits amount) _ _ h4 in
      let e = ok-eq h5 in
      let pair' : TokenPair = record pair { deposits = deposits } in
      (
        subst IsSound e (record {
          pairs =
              put-ArePairs product pair' st.pairs (sound.pairs.named product pair found)
                (sum_not_negative pair.deposits amount deposits
                  (sound.pairs.not_negative product pair found) rich added)
                sound.pairs;
          withdraws = sound.withdraws;
        }),
        λ d.
            ap (surplus d) (sym e)
            ∙ ap (λ n. balance bank dex_account d -ℤ n -ℤ withdrawing d st)
                (total-put (λ (p : TokenPair). held d p.deposits) product pair' st.pairs
                  ∙ ap
                      (λ o.
                        deposited d st
                        -ℤ at_option (λ (p : TokenPair). held d p.deposits) o
                        +ℤ held d deposits)
                      found
                  ∙ ap (λ n. deposited d st -ℤ held d pair.deposits +ℤ n)
                      (coin_add-held c pair.deposits amount deposits d added))
            ∙ ap
                (λ n.
                  n
                  -ℤ (deposited d st
                      -ℤ held d pair.deposits
                      +ℤ (held d pair.deposits +ℤ held d amount))
                  -ℤ withdrawing d st)
                (k.account_to_module-balance from dex_account dex_account d
                    (to_coins s k c params amount) st.bank bank sent
                  ∙ ap (λ n. balance st.bank dex_account d +ℤ n) (amount-to_coins d amount))
            ∙ both (balance st.bank dex_account d) (held d amount) (deposited d st)
                (held d pair.deposits) (withdrawing d st),
      )
    where
      both : (b a t p w : ℤ) → b +ℤ a -ℤ (t -ℤ p +ℤ (p +ℤ a)) -ℤ w ≡ b -ℤ t -ℤ w
      both b a t p w = omega int_laws
