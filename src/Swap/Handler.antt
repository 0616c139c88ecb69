-- ===== src/Swap/Handler.antt =====
-- x/ammswap/handler.go and the keeper calls under it. A handler returns the state after the message,
-- or an error, on which the transaction leaves the state as it was. Events and the notices to the
-- backend module are left out; the messages have passed ValidateBasic. NewDecCoinFromDec is `coin`
-- alone: its panic on a negative amount is left out.
pub mod Pools
pub mod Liquidity
pub mod Trades
pub mod Create
use Prim.Native.String.{String}
use text.Mathlib.Text.{◌==◌ as string_eq}
use okexchain.Base.{
  ℕ, ◌==◌, ℤ, pos, ltb_ℤ, eqb_ℤ, Bool, true, false, not, ◌&&◌, ◌||◌, List, [], ◌∷◌, Option, none,
  some, if◌then◌else◌, string_lt, Result, ok, err, ◌>>=◌, ◌>>◌, fail_if, or_fail,
}
use okexchain.Sdk.{SdkDec, DecMath, Coin, coin, CoinMath, SupplyKeeper}
use okexchain.Common.{mul_and_quo}
use okexchain.Swap.{
  SwapTokenPair, get_swap_token_pair_name, get_pool_token_name, new_swap_pair,
  calculate_token_to_buy,
}

pub data SwapError : Type 0 where
  token_not_exist invalid_coins swap_token_pair_exist pool_token_pair_exist : SwapError
  block_time_big_than_deadline msg_deadline_less_than_block_time : SwapError
  non_exist_swap_token_pair non_exist_pool_token : SwapError
  is_zero_value invalid_token_pair base_tokens_amount_bigger_than_max less_than : SwapError
  insufficient_coins send_coins_failed send_coins_to_pool_failed : SwapError
  send_coins_from_pool_to_account_failed mint_pool_token_failed burn_pool_token_failed : SwapError
  panic : SwapError

-- What the handlers read of a token of x/token: its type.
abbrev pub Tokens : Type 0
Tokens = String → Option ℕ

abbrev pub generate_token_type : ℕ
generate_token_type = 2

abbrev pub Pairs : Type 0
Pairs = String → Option SwapTokenPair

abbrev pub update {ℓ} : {A : Type ℓ} → (String → Option A) → String → A → String → Option A
update f key value k = if string_eq key k then some value else f k

pub record MsgCreateExchange : Type 0 where
  pub token0_name : String
  pub token1_name : String

pub record MsgAddLiquidity : Type 0 where
  pub min_liquidity : SdkDec
  pub max_base_amount : Coin
  pub quote_amount : Coin
  pub deadline : ℤ
  pub sender : String

pub record MsgRemoveLiquidity : Type 0 where
  pub liquidity : SdkDec
  pub min_base_amount : Coin
  pub min_quote_amount : Coin
  pub deadline : ℤ
  pub sender : String

pub record MsgTokenToToken : Type 0 where
  pub sold_token_amount : Coin
  pub min_bought_token_amount : Coin
  pub deadline : ℤ
  pub recipient : String
  pub sender : String

-- GetSwapTokenPairName of each message
abbrev pub add_pair_name : MsgAddLiquidity → String
add_pair_name msg = get_swap_token_pair_name msg.max_base_amount.denom msg.quote_amount.denom

abbrev pub remove_pair_name : MsgRemoveLiquidity → String
remove_pair_name msg = get_swap_token_pair_name msg.min_base_amount.denom msg.min_quote_amount.denom

abbrev pub swap_pair_name : MsgTokenToToken → String
swap_pair_name msg =
    get_swap_token_pair_name msg.min_bought_token_amount.denom msg.sold_token_amount.denom

abbrev pub is_zero : Coin → Bool
is_zero c = eqb_ℤ c.amount (pos 0)

abbrev pub is_positive : Coin → Bool
is_positive c = ltb_ℤ (pos 0) c.amount

-- IsLT of two coins panics where their denominations differ.
abbrev pub is_lt : Coin → Coin → Result SwapError Bool
is_lt a b = if string_eq a.denom b.denom then ok (ltb_ℤ a.amount b.amount) else err panic

-- The positive coins of coinSort, before it sorts them.
unfoldable pub positive_coins : List Coin → List Coin
positive_coins [] = []
positive_coins (c ∷ cs) = if is_positive c then c ∷ positive_coins cs else positive_coins cs

-- IsTokenExist
unfoldable pub is_token_exist : Tokens → String → Result SwapError (Unit {0})
is_token_exist tokens token = do
  kind ← or_fail (tokens token) token_not_exist
  fail_if (kind == generate_token_type) invalid_coins

module _ (m : DecMath) (c : CoinMath) (k : SupplyKeeper) where
  open c use {coin_add, coin_sub, sort}
  open k use {
    Bank, supply_of, has_sufficient_coins, send_to_module, send_from_module, send_to_recipient,
    mint_coins, burn_coins,
  }

  pub record State : Type 0 where
    pub pairs : Pairs
    pub tokens : Tokens
    pub bank : Bank
    pub fee_rate : SdkDec
    pub block_time : ℤ

  -- coinSort
  unfoldable pub coin_sort : List Coin → List Coin
  coin_sort coins = sort (positive_coins coins)

  -- handleMsgCreateExchange
  unfoldable pub handle_msg_create_exchange : MsgCreateExchange → State → Result SwapError State
  handle_msg_create_exchange msg s = do
    is_token_exist s.tokens msg.token0_name
    is_token_exist s.tokens msg.token1_name
    let name = get_swap_token_pair_name msg.token0_name msg.token1_name
    fail_if (elim (s.pairs name) [ none ↦ false | some _ ↦ true ]) swap_token_pair_exist
    let pool_token = get_pool_token_name msg.token0_name msg.token1_name
    fail_if (elim (s.tokens pool_token) [ none ↦ false | some _ ↦ true ]) pool_token_pair_exist
    ok (record s {
      tokens = update s.tokens pool_token generate_token_type;
      pairs = update s.pairs name (new_swap_pair msg.token0_name msg.token1_name);
    })

  -- The base tokens and the liquidity that handleMsgAddLiquidity works out.
  unfoldable pub liquidity_quote :
      MsgAddLiquidity → SwapTokenPair → SdkDec → Result SwapError (SdkDec × SdkDec)
  liquidity_quote msg pair total_supply =
      let base = pair.base_pooled_coin in
      let quote = pair.quote_pooled_coin in
      let share = mul_and_quo m msg.quote_amount.amount base.amount quote.amount in
      let minted = mul_and_quo m msg.quote_amount.amount total_supply quote.amount in
      if is_zero quote && is_zero base
      then ok (msg.max_base_amount.amount, pos m.unit)
      else if is_positive base && is_positive quote
      then (do
        fail_if (eqb_ℤ total_supply (pos 0)) is_zero_value
        fail_if (eqb_ℤ minted (pos 0)) is_zero_value
        ok (if eqb_ℤ share (pos 0) then pos 1 else share, minted))
      else err invalid_token_pair

  -- MintPoolCoinsToUser and BurnPoolCoinsFromUser
  unfoldable pub mint_pool_coins_to_user : List Coin → String → Bank → Option Bank
  mint_pool_coins_to_user coins addr b = elim (mint_coins coins b) [
    | none ↦ none
    | some b' ↦ send_from_module addr coins b'
  ]

  unfoldable pub burn_pool_coins_from_user : List Coin → String → Bank → Option Bank
  burn_pool_coins_from_user coins addr b = elim (send_to_module addr coins b) [
    | none ↦ none
    | some b' ↦ burn_coins coins b'
  ]

  -- The transfers of handleMsgAddLiquidity and its update of the pair.
  unfoldable pub deposit :
      MsgAddLiquidity → SwapTokenPair → Coin → SdkDec → State → Result SwapError State
  deposit msg pair base_tokens liquidity s = do
    let coins = coin_sort (msg.quote_amount ∷ base_tokens ∷ [])
    b1 ← or_fail (send_to_module msg.sender coins s.bank) send_coins_failed
    quote ← or_fail (coin_add pair.quote_pooled_coin msg.quote_amount) panic
    base ← or_fail (coin_add pair.base_pooled_coin base_tokens) panic
    let pair' = record pair { quote_pooled_coin = quote; base_pooled_coin = base }
    let pool_coins = coin pair.pool_token_name liquidity ∷ []
    b2 ← or_fail (mint_pool_coins_to_user pool_coins msg.sender b1) mint_pool_token_failed
    ok (record s { pairs = update s.pairs (add_pair_name msg) pair'; bank = b2 })

  -- handleMsgAddLiquidity
  unfoldable pub handle_msg_add_liquidity : MsgAddLiquidity → State → Result SwapError State
  handle_msg_add_liquidity msg s = do
    fail_if (ltb_ℤ msg.deadline s.block_time) block_time_big_than_deadline
    pair ← or_fail (s.pairs (add_pair_name msg)) non_exist_swap_token_pair
    kind ← or_fail (s.tokens pair.pool_token_name) non_exist_pool_token
    (base_amount, liquidity) ← liquidity_quote msg pair (supply_of s.bank pair.pool_token_name)
    fail_if (ltb_ℤ msg.max_base_amount.amount base_amount) base_tokens_amount_bigger_than_max
    fail_if (ltb_ℤ liquidity msg.min_liquidity) less_than
    deposit msg pair (coin msg.max_base_amount.denom base_amount) liquidity s

  -- The transfers of handleMsgRemoveLiquidity and its update of the pair.
  unfoldable pub withdraw :
      MsgRemoveLiquidity → SwapTokenPair → Coin → Coin → State → Result SwapError State
  withdraw msg pair base_amount quote_amount s = do
    let coins = coin_sort (base_amount ∷ quote_amount ∷ [])
    b1 ← or_fail (send_from_module msg.sender coins s.bank) send_coins_from_pool_to_account_failed
    quote ← or_fail (coin_sub pair.quote_pooled_coin quote_amount) panic
    base ← or_fail (coin_sub pair.base_pooled_coin base_amount) panic
    let pair' = record pair { quote_pooled_coin = quote; base_pooled_coin = base }
    let pool_coins = coin pair.pool_token_name msg.liquidity ∷ []
    b2 ← or_fail (burn_pool_coins_from_user pool_coins msg.sender b1) burn_pool_token_failed
    ok (record s { pairs = update s.pairs (remove_pair_name msg) pair'; bank = b2 })

  -- handleMsgRemoveLiquidity
  unfoldable pub handle_msg_remove_liquidity : MsgRemoveLiquidity → State → Result SwapError State
  handle_msg_remove_liquidity msg s = do
    fail_if (ltb_ℤ msg.deadline s.block_time) msg_deadline_less_than_block_time
    pair ← or_fail (s.pairs (remove_pair_name msg)) non_exist_swap_token_pair
    let total = supply_of s.bank pair.pool_token_name
    fail_if (ltb_ℤ total msg.liquidity) less_than
    let base_dec = mul_and_quo m pair.base_pooled_coin.amount msg.liquidity total
    let quote_dec = mul_and_quo m pair.quote_pooled_coin.amount msg.liquidity total
    let base_amount = coin pair.base_pooled_coin.denom base_dec
    let quote_amount = coin pair.quote_pooled_coin.denom quote_dec
    too_little_base ← is_lt base_amount msg.min_base_amount
    fail_if too_little_base less_than
    too_little_quote ← is_lt quote_amount msg.min_quote_amount
    fail_if too_little_quote less_than
    withdraw msg pair base_amount quote_amount s

  -- The update of the pair in swapTokenNativeToken.
  unfoldable pub trade_pair :
      SwapTokenPair → Coin → MsgTokenToToken → Result SwapError SwapTokenPair
  trade_pair pair token_buy msg =
      let sold = msg.sold_token_amount in
      if string_lt msg.min_bought_token_amount.denom sold.denom
      then (do
        quote ← or_fail (coin_add pair.quote_pooled_coin sold) panic
        base ← or_fail (coin_sub pair.base_pooled_coin token_buy) panic
        ok (record pair { quote_pooled_coin = quote; base_pooled_coin = base }))
      else (do
        quote ← or_fail (coin_sub pair.quote_pooled_coin token_buy) panic
        base ← or_fail (coin_add pair.base_pooled_coin sold) panic
        ok (record pair { quote_pooled_coin = quote; base_pooled_coin = base }))

  -- swapTokenNativeToken
  unfoldable pub swap_token_native_token :
      SwapTokenPair → Coin → MsgTokenToToken → State → Result SwapError State
  swap_token_native_token pair token_buy msg s = do
    let sold = msg.sold_token_amount ∷ []
    b1 ← or_fail (send_to_module msg.sender sold s.bank) send_coins_to_pool_failed
    b2 ←
        or_fail (send_to_recipient msg.recipient (token_buy ∷ []) b1)
          send_coins_from_pool_to_account_failed
    pair' ← trade_pair pair token_buy msg
    ok (record s { pairs = update s.pairs (swap_pair_name msg) pair'; bank = b2 })

  abbrev pub is_drained : SwapTokenPair → Bool
  is_drained pair = is_zero pair.base_pooled_coin || is_zero pair.quote_pooled_coin

  -- swapToken
  unfoldable pub swap_token : MsgTokenToToken → State → Result SwapError State
  swap_token msg s = do
    let bought = msg.min_bought_token_amount
    fail_if (not (has_sufficient_coins s.bank msg.sender (msg.sold_token_amount ∷ [])))
        insufficient_coins
    fail_if (ltb_ℤ msg.deadline s.block_time) block_time_big_than_deadline
    pair ← or_fail (s.pairs (swap_pair_name msg)) non_exist_swap_token_pair
    fail_if (is_drained pair) is_zero_value
    let token_buy = calculate_token_to_buy m pair msg.sold_token_amount bought.denom s.fee_rate
    fail_if (is_zero token_buy) is_zero_value
    fail_if (ltb_ℤ token_buy.amount bought.amount) less_than
    swap_token_native_token pair token_buy msg s

  -- swapTokenByRouter, through the native token.
  unfoldable pub swap_token_by_router : String → MsgTokenToToken → State → Result SwapError State
  swap_token_by_router bond_denom msg s = do
    let sold = msg.sold_token_amount
    let bought = msg.min_bought_token_amount
    fail_if (ltb_ℤ msg.deadline s.block_time) block_time_big_than_deadline
    fail_if (not (has_sufficient_coins s.bank msg.sender (sold ∷ []))) insufficient_coins
    pair_one ←
        or_fail (s.pairs (get_swap_token_pair_name sold.denom bond_denom)) non_exist_swap_token_pair
    fail_if (is_drained pair_one) is_zero_value
    pair_two ←
        or_fail (s.pairs (get_swap_token_pair_name bought.denom bond_denom))
          non_exist_swap_token_pair
    fail_if (is_drained pair_two) is_zero_value
    let msg_one = record msg { min_bought_token_amount = coin bond_denom (pos 0) }
    let native = calculate_token_to_buy m pair_one sold bond_denom s.fee_rate
    fail_if (is_zero native) is_zero_value
    let msg_two = record msg { sold_token_amount = native }
    let token_buy = calculate_token_to_buy m pair_two native bought.denom s.fee_rate
    fail_if (is_zero token_buy) is_zero_value
    fail_if (ltb_ℤ token_buy.amount bought.amount) less_than
    s' ← swap_token_native_token pair_one native msg_one s
    swap_token_native_token pair_two token_buy msg_two s'

  -- handleMsgTokenToToken: straight where the pair exists, and through the native token otherwise.
  unfoldable pub handle_msg_token_to_token :
      String → MsgTokenToToken → State → Result SwapError State
  handle_msg_token_to_token bond_denom msg s = elim (s.pairs (swap_pair_name msg)) [
    | none ↦ swap_token_by_router bond_denom msg s
    | some _ ↦ swap_token msg s
  ]
