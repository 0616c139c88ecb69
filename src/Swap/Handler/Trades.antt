-- ===== src/Swap/Handler/Trades.antt =====
-- swapToken of x/ammswap/handler.go.
use Prim.Native.String.{String}
use okexchain.Base.{
  ◌≡◌, ℤ, pos, ◌+ℤ◌, ◌-ℤ◌, if◌then◌else◌, ◌≤ℤ◌, ltb_ℤ, false, not, [], ◌∷◌, some, arith, ok,
  fail_if->>-eq-ok, or_fail->>=-eq-ok,
}
use okexchain.Sdk.{DecMath, CoinMath, SupplyKeeper}
use okexchain.Sdk.Coins.{held}
use okexchain.Swap.{SwapTokenPair, calculate_token_to_buy}
use okexchain.Swap.Handler.{
  MsgTokenToToken, State, update, swap_token, swap_pair_name, is_zero, is_drained,
}
use okexchain.Swap.Handler.Pools.{pooled, swap_token_native_token-moves}

module _ (m : DecMath) (c : CoinMath) (k : SupplyKeeper) (d : String) where
  open k use {Bank, module_balance, has_sufficient_coins}

  -- Where swapToken succeeds, the pair existed with neither reserve at zero, and the amount that the
  -- price gives for what was sold is at least the minimum that the buyer asked for. Of each
  -- denomination the account of the module has changed by what the pool has, and where the recipient
  -- is that very account, by what was bought besides, which the pool gave up and the account kept.
  -- No other pair has changed.
  pub swap_token-moves :
      (msg : MsgTokenToToken) (s s' : State m c k)
      → swap_token m c k msg s ≡ ok s'
      → (pair pair' : SwapTokenPair) × (s.pairs (swap_pair_name msg) ≡ some pair)
        × (s'.pairs ≡ update s.pairs (swap_pair_name msg) pair')
        × (is_drained m c k pair ≡ false)
        × (msg.min_bought_token_amount.amount
            ≤ℤ (calculate_token_to_buy m pair msg.sold_token_amount
                msg.min_bought_token_amount.denom s.fee_rate).amount)
        × (module_balance s'.bank d -ℤ module_balance s.bank d
            ≡ pooled d pair'
              -ℤ pooled d pair
              +ℤ (if k.is_own msg.recipient
                  then held d (
                      calculate_token_to_buy m pair msg.sold_token_amount
                        msg.min_bought_token_amount.denom s.fee_rate)
                  else pos 0))
  unfolding swap_token
  swap_token-moves msg s s' h =
      let sold = msg.sold_token_amount in
      let bought = msg.min_bought_token_amount in
      let (_, h1) =
        fail_if->>-eq-ok (not (has_sufficient_coins s.bank msg.sender (sold ∷ []))) _ _ h in
      let (_, h2) = fail_if->>-eq-ok (ltb_ℤ msg.deadline s.block_time) _ _ h1 in
      let (pair, e3, h3) = or_fail->>=-eq-ok (s.pairs (swap_pair_name msg)) _ _ h2 in
      let (e4, h4) = fail_if->>-eq-ok (is_drained m c k pair) _ _ h3 in
      let token_buy = calculate_token_to_buy m pair sold bought.denom s.fee_rate in
      let (_, h5) = fail_if->>-eq-ok (is_zero token_buy) _ _ h4 in
      let (e6, h6) = fail_if->>-eq-ok (ltb_ℤ token_buy.amount bought.amount) _ _ h5 in
      let (pair', e7, moved) = swap_token_native_token-moves m c k d pair token_buy msg s s' h6 in
      (pair, pair', e3, e7, e4, le_of_not_lt token_buy.amount bought.amount e6, moved)
    where
      le_of_not_lt : (a b : ℤ) → ltb_ℤ a b ≡ false → b ≤ℤ a
      le_of_not_lt a b h = ground arith
