-- ===== src/Dex/Backed/Withdraw.antt =====
-- The account of x/dex against what the module owes, through Withdraw and CompleteWithdraw.
use Prim.Native.String.{String}
use text.Mathlib.Text.{◌==◌ as string_eq}
use okexchain.Base.{
  ◌≡◌, refl, sym, ap, ◌∙◌, subst, ℤ, pos, ◌+ℤ◌, ◌-ℤ◌, ◌≤ℤ◌, int_laws, zero_+ℤ, not, Option, none,
  some, ok, >>=-eq-ok, or_fail->>=-eq-ok, fail_if->>-eq-ok, ok-eq, get, put, delete, total,
  at_option, total-put, total-delete,
}
use okexchain.Sdk.{DecMath, SdkDec, Coin, CoinMath}
use okexchain.Sdk.Coins.{held, coin_add-held, coin_sub-some, coin_sub-le, coin_sub-held}
use okexchain.Sdk.Sets.{CoinSets, ModuleBank}
use okexchain.Dex.Types.{Time, TokenPair, WithdrawInfo, DexParams, Context, DexState, dex_account}
use okexchain.Dex.Keeper.{
  to_coins, get_token_pair, joined_withdraw, without_withdraw_time, set_withdraw_time,
  delete_withdraw_time, add_withdraw, withdraw, complete_withdraw,
}
use okexchain.Dex.Backed.{
  IsSound, surplus, deposited, withdrawing, Keeps, sum_not_negative, amount-to_coins,
}
use okexchain.Dex.Sound.{
  ArePairs, AreWithdraws, put-ArePairs, put-AreWithdraws, delete-AreWithdraws,
}

module _ {m : DecMath} (s : CoinSets m) (k : ModuleBank s) (c : CoinMath) (params : DexParams) where
  open k use {balance}
  open c use {coin_add, coin_sub, coin_is_lt}

  abbrev pub of_info : String → WithdrawInfo → SdkDec
  of_info d info = held d info.deposits

  joined_withdraw_lem :
      (to : String) (amount : Coin) (time : Time) (o : Option WithdrawInfo) (info : WithdrawInfo)
      → pos 0 ≤ℤ amount.amount
      → ((i : WithdrawInfo) → o ≡ some i → (i.owner ≡ to) × (pos 0 ≤ℤ i.deposits.amount))
      → joined_withdraw s k c params to amount time o ≡ ok info
      → (info.owner ≡ to)
        × (info.complete_time ≡ time)
        × (pos 0 ≤ℤ info.deposits.amount)
        × ((d : String) → of_info d info ≡ at_option (of_info d) o +ℤ held d amount)
  joined_withdraw_lem to amount time none info rich old h =
      let e = ok-eq h in
      (
        ap (λ (i : WithdrawInfo). i.owner) (sym e),
        ap (λ (i : WithdrawInfo). i.complete_time) (sym e),
        subst (λ (i : WithdrawInfo). pos 0 ≤ℤ i.deposits.amount) e rich,
        λ d. ap (of_info d) (sym e) ∙ sym (zero_+ℤ (held d amount)),
      )
  joined_withdraw_lem to amount time (some i) info rich old h =
      let (own, more) = old i refl in
      let (deposits, added, h1) = or_fail->>=-eq-ok (coin_add i.deposits amount) _ _ h in
      let e = ok-eq h1 in
      (
        ap (λ (i : WithdrawInfo). i.owner) (sym e) ∙ own,
        ap (λ (i : WithdrawInfo). i.complete_time) (sym e),
        subst (λ (i : WithdrawInfo). pos 0 ≤ℤ i.deposits.amount) e
            (sum_not_negative s k c params i.deposits amount deposits more rich added),
        λ d. ap (of_info d) (sym e) ∙ coin_add-held c i.deposits amount deposits d added,
      )

  add_withdraw_lem :
      (ctx : Context) (to : String) (amount : Coin) (st st' : DexState s k)
      → pos 0 ≤ℤ amount.amount
      → AreWithdraws st.withdraws st.withdraw_times
      → add_withdraw s k c params ctx to amount st ≡ ok st'
      → AreWithdraws st'.withdraws st'.withdraw_times
        × ((d : String)
            → withdrawing s k c params d st' ≡ withdrawing s k c params d st +ℤ held d amount)
        × (st'.pairs ≡ st.pairs)
        × (st'.bank ≡ st.bank)
  unfolding add_withdraw
  add_withdraw_lem ctx to amount st st' rich sound h =
      let time = ctx.time +ℤ params.withdraw_period in
      let o = get to st.withdraws in
      let (info, joined, h1) = >>=-eq-ok (joined_withdraw s k c params to amount time o) _ h in
      let (own, at, more, sum) =
        joined_withdraw_lem to amount time o info rich
          (λ i f. (sound.owned to i f, sound.not_negative to i f)) joined in
      let e = ok-eq h1 in
      let keys =
        λ (t : Time). set_withdraw_time t to (without_withdraw_time to o st.withdraw_times) in
      (
        subst (λ (x : DexState s k). AreWithdraws x.withdraws x.withdraw_times) e
            (subst (λ a. AreWithdraws (put a info st.withdraws) (keys time)) (sym own)
              (subst (λ t. AreWithdraws (put to info st.withdraws) (keys t)) at
                (put-AreWithdraws to info st.withdraws st.withdraw_times own more sound))),
        λ d.
            ap (withdrawing s k c params d) (sym e)
            ∙ ap (λ a. total (of_info d) (put a info st.withdraws)) own
            ∙ total-put (of_info d) to info st.withdraws
            ∙ ap (λ n. withdrawing s k c params d st -ℤ at_option (of_info d) o +ℤ n) (sum d)
            ∙ cancelled (withdrawing s k c params d st) (at_option (of_info d) o) (held d amount),
        ap (λ (x : DexState s k). x.pairs) (sym e),
        ap (λ (x : DexState s k). x.bank) (sym e),
      )
    where
      cancelled : (w o a : ℤ) → w -ℤ o +ℤ (o +ℤ a) ≡ w +ℤ a
      cancelled w o a = omega int_laws

  -- The pair is left with what was deposited s k c params for it, less an amount.
  abbrev pub LeavesPair : String → Coin → DexState s k → DexState s k → Type 0
  LeavesPair product amount st st' =
      (pair : TokenPair) × (deposits : Coin) × (get product st.pairs ≡ some pair)
      × (coin_sub pair.deposits amount ≡ some deposits)
      × (st'.pairs ≡ put product (record pair { deposits = deposits }) st.pairs)

  pub withdraw-Keeps :
      (ctx : Context) (product to : String) (amount : Coin) (st st' : DexState s k)
      → pos 0 ≤ℤ amount.amount
      → IsSound s k c params st
      → withdraw s k c params ctx product to amount st ≡ ok st'
      → Keeps s k c params st st' × LeavesPair product amount st st'
  unfolding withdraw
  withdraw-Keeps ctx product to amount st st' rich sound h =
      let (pair, found, h1) = or_fail->>=-eq-ok (get_token_pair s k c params product st) _ _ h in
      let (_, h2) = fail_if->>-eq-ok (not (string_eq pair.owner to)) _ _ h1 in
      let (_, h3) = fail_if->>-eq-ok (not (string_eq amount.denom params.bond_denom)) _ _ h2 in
      let (short, test, h4) = or_fail->>=-eq-ok (coin_is_lt pair.deposits amount) _ _ h3 in
      let (enough, h5) = fail_if->>-eq-ok short _ _ h4 in
      let (st1, kept, h6) = >>=-eq-ok (add_withdraw s k c params ctx to amount st) _ h5 in
      let (deposits, left, h7) = or_fail->>=-eq-ok (coin_sub pair.deposits amount) _ _ h6 in
      let (sound1, sum, same, bank) =
        add_withdraw_lem ctx to amount st st1 rich sound.withdraws kept in
      let e = ok-eq h7 in
      let pair' : TokenPair = record pair { deposits = deposits } in
      let of_pair = λ (d : String) (p : TokenPair). held d p.deposits in
      let pairs = put product pair' st.pairs in
      let pairs_eq : st'.pairs ≡ pairs =
        ap (λ (x : DexState s k). x.pairs) (sym e) ∙ ap (put product pair') same in
      (
        (
          record {
            pairs = subst ArePairs (sym pairs_eq) (
                put-ArePairs product pair' st.pairs (sound.pairs.named product pair found)
                  (subst (λ (w : Coin). pos 0 ≤ℤ w.amount)
                    (sym (coin_sub-some c pair.deposits amount deposits left).1)
                    (less pair.deposits.amount amount.amount
                      (coin_sub-le c pair.deposits amount deposits left)))
                  sound.pairs);
            withdraws =
                subst (λ (x : DexState s k). AreWithdraws x.withdraws x.withdraw_times) e sound1;
          },
          λ d.
              ap
                (λ p.
                  balance st'.bank dex_account d
                  -ℤ total (of_pair d) p
                  -ℤ withdrawing s k c params d st')
                pairs_eq
              ∙ ap
                  (λ (x : DexState s k).
                    balance x.bank dex_account d
                    -ℤ total (of_pair d) pairs
                    -ℤ withdrawing s k c params d x)
                  (sym e)
              ∙ ap
                  (λ b.
                    balance b dex_account d
                    -ℤ total (of_pair d) pairs
                    -ℤ withdrawing s k c params d st1)
                  bank
              ∙ ap (λ n. balance st.bank dex_account d -ℤ total (of_pair d) pairs -ℤ n) (sum d)
              ∙ ap
                  (λ n.
                    balance st.bank dex_account d
                    -ℤ n
                    -ℤ (withdrawing s k c params d st +ℤ held d amount))
                  (total-put (of_pair d) product pair' st.pairs
                    ∙ ap
                        (λ o.
                          deposited s k c params d st -ℤ at_option (of_pair d) o +ℤ held d deposits)
                        found
                    ∙ ap (λ n. deposited s k c params d st -ℤ held d pair.deposits +ℤ n)
                        (coin_sub-held c pair.deposits amount deposits d left))
              ∙ both (balance st.bank dex_account d) (held d amount) (deposited s k c params d st)
                  (held d pair.deposits) (withdrawing s k c params d st),
        ),
        (pair, deposits, found, left, pairs_eq),
      )
    where
      less : (a b : ℤ) → b ≤ℤ a → pos 0 ≤ℤ a -ℤ b
      less a b h = omega int_laws

      both : (b a t p w : ℤ) → b -ℤ (t -ℤ p +ℤ (p -ℤ a)) -ℤ (w +ℤ a) ≡ b -ℤ t -ℤ w
      both b a t p w = omega int_laws

  pub complete_withdraw-Keeps :
      (time : Time) (addr : String) (st st' : DexState s k)
      → IsSound s k c params st
      → ((info : WithdrawInfo) → get addr st.withdraws ≡ some info → info.complete_time ≡ time)
      → complete_withdraw s k c params addr st ≡ ok st'
      → Keeps s k c params st
          (record st' { withdraw_times = delete_withdraw_time time addr st'.withdraw_times })
        × (st'.withdraws ≡ delete addr st.withdraws)
        × (st'.withdraw_times ≡ st.withdraw_times)
  unfolding complete_withdraw
  complete_withdraw-Keeps time addr st st' sound due h =
      let (info, found, h1) = or_fail->>=-eq-ok (get addr st.withdraws) _ _ h in
      let (bank, sent, h2) =
        or_fail->>=-eq-ok
          (k.module_to_account dex_account info.owner (to_coins s k c params info.deposits) st.bank)
          _ _ h1 in
      let e = ok-eq h2 in
      let done = λ (x : DexState s k). record x {
        withdraw_times = delete_withdraw_time time addr x.withdraw_times;
      } in
      (
        (
          subst (λ x. IsSound s k c params (done x)) e
              (record {
                pairs = sound.pairs;
                withdraws =
                    delete-AreWithdraws addr time st.withdraws st.withdraw_times due
                      sound.withdraws;
              }),
          λ d.
              ap (λ x. surplus s k c params d (done x)) (sym e)
              ∙ ap
                  (λ n.
                    n
                    -ℤ deposited s k c params d st
                    -ℤ total (of_info d) (delete addr st.withdraws))
                  (k.module_to_account-balance info.owner dex_account dex_account d
                      (to_coins s k c params info.deposits) st.bank bank sent
                    ∙ ap (λ n. balance st.bank dex_account d -ℤ n)
                        (amount-to_coins s k c params d info.deposits))
              ∙ ap
                  (λ n.
                    balance st.bank dex_account d
                    -ℤ of_info d info
                    -ℤ deposited s k c params d st
                    -ℤ n)
                  (total-delete (of_info d) addr st.withdraws
                    ∙ ap (λ o. withdrawing s k c params d st -ℤ at_option (of_info d) o) found)
              ∙ paid (balance st.bank dex_account d) (of_info d info) (deposited s k c params d st)
                  (withdrawing s k c params d st),
        ),
        ap (λ (x : DexState s k). x.withdraws) (sym e),
        ap (λ (x : DexState s k). x.withdraw_times) (sym e),
      )
    where
      paid : (b a t w : ℤ) → b -ℤ a -ℤ t -ℤ (w -ℤ a) ≡ b -ℤ t -ℤ w
      paid b a t w = omega int_laws
