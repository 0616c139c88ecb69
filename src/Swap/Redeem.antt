-- ===== src/Swap/Redeem.antt =====
-- What other modules ask of x/ammswap: the two tokens of a pool token's name (types/swap.go) and what
-- a share of a pool can be redeemed for (keeper/keeper.go).
pub mod Names
use Prim.Native.Char.{Char, code}
use Prim.Native.String.{String}
use text.Mathlib.Text.{◌==◌ as string_eq, starts_with}
use okexchain.Base.{
  ℕ, ◌==◌, ltb_ℤ, Bool, not, List, [], ◌∷◌, Option, none, some, if◌then◌else◌, Result, ok, ◌>>=◌,
  ◌>>◌, fail_if, or_fail, err, string_lt,
}
use okexchain.Sdk.{SdkDec, DecMath, Coin, coin}
use okexchain.Common.{mul_and_quo}
use okexchain.Swap.{SwapTokenPair, get_swap_token_pair_name}

pub data RedeemError : Type 0 where
  base_amount_name_bigger base_name_equal_quote validate_denom not_allowed_origin_symbol :
      RedeemError
  validate_swap_amount_name_failed non_exist_swap_token_pair insufficient_pool_token : RedeemError

-- IsPoolToken, which is NotAllowedOriginSymbol of x/token/types/util.go
abbrev pub is_pool_token : String → Bool
is_pool_token symbol = starts_with symbol "ammswap"

abbrev pub underscore : ℕ
underscore = b'_'

-- strings.Split at an underscore: at least one part.
unfoldable pub split : String → String × List String
split String.[] = (String.[], [])
split (String.◌∷◌ c s) =
    let (part, parts) = split s in
    if code c == underscore then (String.[], part ∷ parts) else (String.◌∷◌ c part, parts)

abbrev pub first_two : List String → Option (String × String)
first_two [] = none
first_two (token0 ∷ []) = none
first_two (token0 ∷ token1 ∷ parts) = some (token0, token1)

-- SplitPoolToken; `none` where the name has fewer than three parts, and the code panics.
unfoldable pub split_pool_token : String → Option (String × String)
unfolding split
split_pool_token symbol = first_two (split symbol).1

-- The pairs, the supply of the pool tokens, and the SDK's check of a denomination.
pub record SwapView : Type 0 where
  pub get_swap_token_pair : String → Option SwapTokenPair
  pub get_pool_token_amount : String → SdkDec
  pub valid_denom : String → Bool

module _ (m : DecMath) (v : SwapView) where
  -- ValidateSwapAmountName
  unfoldable pub validate_swap_amount_name : String → Result RedeemError (Unit {0})
  validate_swap_amount_name amount_name = do
    fail_if (not (v.valid_denom amount_name)) validate_denom
    fail_if (is_pool_token amount_name) not_allowed_origin_symbol

  -- ValidateBaseAndQuoteAmount
  unfoldable pub validate_base_and_quote_amount : String → String → Result RedeemError (Unit {0})
  validate_base_and_quote_amount base quote = do
    fail_if (string_lt quote base) base_amount_name_bigger
    fail_if (string_eq base quote) base_name_equal_quote
    validate_swap_amount_name base
    validate_swap_amount_name quote

  -- Whatever the error was, the caller is told of an invalid name.
  abbrev pub checked : {A : Type 0} → Result RedeemError A → Result RedeemError A
  checked (err e) = err validate_swap_amount_name_failed
  checked (ok a) = ok a

  -- GetRedeemableAssets
  unfoldable pub get_redeemable_assets : String → String → SdkDec → Result RedeemError (Coin × Coin)
  get_redeemable_assets base quote liquidity = do
    checked (validate_base_and_quote_amount base quote)
    pair ←
        or_fail (v.get_swap_token_pair (get_swap_token_pair_name base quote))
          non_exist_swap_token_pair
    let pool_token_amount = v.get_pool_token_amount pair.pool_token_name
    fail_if (ltb_ℤ pool_token_amount liquidity) insufficient_pool_token
    let base_dec = mul_and_quo m pair.base_pooled_coin.amount liquidity pool_token_amount
    let quote_dec = mul_and_quo m pair.quote_pooled_coin.amount liquidity pool_token_amount
    ok (coin pair.base_pooled_coin.denom base_dec, coin pair.quote_pooled_coin.denom quote_dec)
