-- ===== src/Swap.antt =====
-- x/ammswap: the automated market maker. Token pairs, their names and the prices.
pub mod Price
pub mod Handler
pub mod Redeem
use Prim.Native.String.{String, ◌++◌}
use okexchain.Base.{ℕ, ◌*◌, ℤ, pos, ◌+ℤ◌, ◌-ℤ◌, if◌then◌else◌, string_lt}
use okexchain.Sdk.{SdkDec, DecMath, Coin, coin}
use okexchain.Common.{mul_and_quo}

pub record SwapTokenPair : Type 0 where
  pub quote_pooled_coin : Coin
  pub base_pooled_coin : Coin
  pub pool_token_name : String

-- GetBaseQuoteTokenName
unfoldable pub get_base_quote_token_name : String → String → String × String
get_base_quote_token_name token0 token1 =
    if string_lt token0 token1 then (token0, token1) else (token1, token0)

-- GetSwapTokenPairName
unfoldable pub get_swap_token_pair_name : String → String → String
unfolding get_base_quote_token_name
get_swap_token_pair_name token0 token1 =
    let (base, quote) = get_base_quote_token_name token0 token1 in base ++ ("_" ++ quote)

-- GetPoolTokenName
unfoldable pub get_pool_token_name : String → String → String
get_pool_token_name token1 token2 = "ammswap_" ++ get_swap_token_pair_name token1 token2

-- NewSwapPair
unfoldable pub new_swap_pair : String → String → SwapTokenPair
unfolding get_base_quote_token_name get_pool_token_name
new_swap_pair token0 token1 =
    let (base, quote) = get_base_quote_token_name token0 token1 in
    record {
      quote_pooled_coin = coin quote (pos 0);
      base_pooled_coin = coin base (pos 0);
      pool_token_name = get_pool_token_name token0 token1;
    }

module _ (m : DecMath) where
  open m use {unit, mul_truncate}

  -- sdk.NewDec(1000) and sdk.OneDec()
  abbrev pub thousand : SdkDec
  thousand = pos (1000 * unit)

  abbrev pub one_dec : SdkDec
  one_dec = pos unit

  -- GetInputPrice
  unfoldable pub get_input_price : SdkDec → SdkDec → SdkDec → SdkDec → SdkDec
  get_input_price input_amount input_reserve output_reserve fee_rate =
      let input_amount_with_fee =
        mul_truncate input_amount (mul_truncate (one_dec -ℤ fee_rate) thousand) in
      let denominator = mul_truncate input_reserve thousand +ℤ input_amount_with_fee in
      mul_and_quo m input_amount_with_fee output_reserve denominator

  -- CalculateTokenToBuy
  unfoldable pub calculate_token_to_buy : SwapTokenPair → Coin → String → SdkDec → Coin
  calculate_token_to_buy pair sell_token buy_token_denom fee_rate =
      let base = pair.base_pooled_coin.amount in
      let quote = pair.quote_pooled_coin.amount in
      let buys_base = string_lt buy_token_denom sell_token.denom in
      let input_reserve = if buys_base then quote else base in
      let output_reserve = if buys_base then base else quote in
      coin buy_token_denom (get_input_price sell_token.amount input_reserve output_reserve fee_rate)
