-- ===== src/Swap/Handler/Pools.antt =====
-- swapTokenNativeToken of x/ammswap/handler.go: the pools and the account of the module.
use Prim.Native.String.{String}
use okexchain.Base.{
  ◌≡◌, ◌⊎◌, ap, inl, inr, ◌+ℤ◌, ◌-ℤ◌, int_laws, Bool-cases, pos, if◌then◌else◌, [], ◌∷◌, some,
  arith, string_lt, ok, >>=-eq-ok, or_fail-eq-ok,
}
use okexchain.Sdk.{SdkDec, DecMath, Coin, CoinMath, SupplyKeeper, amount_of}
use okexchain.Sdk.Coins.{held, coin_add-held, coin_sub-held, amount_of-one, amount_of-two}
use okexchain.Swap.{SwapTokenPair}
use okexchain.Swap.Handler.{
  MsgTokenToToken, State, update, trade_pair, swap_token_native_token, swap_pair_name,
}

-- What a pair holds of a denomination.
abbrev pub pooled : String → SwapTokenPair → SdkDec
pooled d pair = amount_of d (pair.base_pooled_coin ∷ pair.quote_pooled_coin ∷ [])

pub pooled-held :
    (d : String) (pair : SwapTokenPair)
    → pooled d pair ≡ held d pair.base_pooled_coin +ℤ held d pair.quote_pooled_coin
pooled-held d pair = amount_of-two d pair.base_pooled_coin pair.quote_pooled_coin

module _ (m : DecMath) (c : CoinMath) (k : SupplyKeeper) (d : String) where
  -- The coins of a pair after a trade.
  trade_pair-coins :
      (pair pair' : SwapTokenPair) (token_buy : Coin) (msg : MsgTokenToToken)
      → trade_pair m c k pair token_buy msg ≡ ok pair'
      → ((c.coin_add pair.quote_pooled_coin msg.sold_token_amount ≡ some pair'.quote_pooled_coin)
          × (c.coin_sub pair.base_pooled_coin token_buy ≡ some pair'.base_pooled_coin))
        ⊎ ((c.coin_sub pair.quote_pooled_coin token_buy ≡ some pair'.quote_pooled_coin)
            × (c.coin_add pair.base_pooled_coin msg.sold_token_amount
                ≡ some pair'.base_pooled_coin))
  unfolding trade_pair
  trade_pair-coins pair pair' token_buy msg h =
      elim (Bool-cases (string_lt msg.min_bought_token_amount.denom msg.sold_token_amount.denom)) [
        | inl t ↦ inl (ground arith, ground arith)
        | inr t ↦ inr (ground arith, ground arith)
      ]

  -- What a trade takes into a pair and out of it.
  trade_pair-pooled :
      (pair pair' : SwapTokenPair) (token_buy : Coin) (msg : MsgTokenToToken)
      → trade_pair m c k pair token_buy msg ≡ ok pair'
      → pooled d pair' ≡ pooled d pair +ℤ held d msg.sold_token_amount -ℤ held d token_buy
  trade_pair-pooled pair pair' token_buy msg h =
      rw (pooled-held d pair', pooled-held d pair)
        (elim (trade_pair-coins pair pair' token_buy msg h) [
          | inl (q, b) ↦ rw (coin_add-held c _ _ _ d q, coin_sub-held c _ _ _ d b) (omega int_laws)
          | inr (q, b) ↦ rw (coin_sub-held c _ _ _ d q, coin_add-held c _ _ _ d b) (omega int_laws)
        ])

  -- What a recipient leaves in the account of the module: what it is paid, if it is that account.
  abbrev pub stays_in : MsgTokenToToken → Coin → SdkDec
  stays_in msg token_buy = if k.is_own msg.recipient then held d token_buy else pos 0

  -- What a swap that succeeds has done: the pair it stores moved as the account of the module did, less
  -- what that account paid to itself.
  pub swap_token_native_token-moves :
      (pair : SwapTokenPair) (token_buy : Coin) (msg : MsgTokenToToken) (s s' : State m c k)
      → swap_token_native_token m c k pair token_buy msg s ≡ ok s'
      → (pair' : SwapTokenPair) × (s'.pairs ≡ update s.pairs (swap_pair_name msg) pair')
        × (k.module_balance s'.bank d -ℤ k.module_balance s.bank d
            ≡ pooled d pair' -ℤ pooled d pair +ℤ stays_in msg token_buy)
  unfolding swap_token_native_token
  swap_token_native_token-moves pair token_buy msg s s' h =
      let (b1, e1, h1) = >>=-eq-ok _ _ h in
      let (b2, e2, h2) = >>=-eq-ok _ _ h1 in
      let (pair', e3, h3) = >>=-eq-ok _ _ h2 in
      let received =
        k.send_to_module-module msg.sender (msg.sold_token_amount ∷ []) s.bank b1 d
          (or_fail-eq-ok _ _ e1) in
      let paid =
        k.send_to_recipient-module msg.recipient (token_buy ∷ []) b1 b2 d (or_fail-eq-ok _ _ e2) in
      let recorded = trade_pair-pooled pair pair' token_buy msg e3 in
      let after : s' ≡ record s { pairs = update s.pairs (swap_pair_name msg) pair'; bank = b2 } =
        cc in
      (
        pair',
        ap (λ t. t.pairs) after,
        elim (Bool-cases (k.is_own msg.recipient)) [
          | inl own ↦
              rw (after, paid, own, received, recorded, amount_of-one d msg.sold_token_amount)
                (omega int_laws)
          | inr other ↦
              rw
                (
                  after,
                  paid,
                  other,
                  received,
                  recorded,
                  amount_of-one d msg.sold_token_amount,
                  amount_of-one d token_buy,
                )
                (omega int_laws)
        ],
      )
