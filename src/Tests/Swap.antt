-- ===== src/Tests/Swap.antt =====
-- A pool of two tokens: a swap, some liquidity added and removed, and a second exchange refused.
use Prim.Native.String.{String}
use text.Mathlib.Text.{◌==◌ as string_eq}
use okexchain.Base.{
  ℕ, ◌+◌, ◌-◌, ◌*◌, ◌≤◌, ◌<◌, ◌≡◌, ◌≢◌, pos, ◌+ℤ◌, ◌-ℤ◌, ◌≤ℤ◌, refl, ap, false, none, some, arith,
  Result, ok, err, if◌then◌else◌,
}
use okexchain.Sdk.{SdkDec, coin, amount_of}
use okexchain.Sdk.Coins.{held}
use okexchain.Common.{mul_and_quo}
use okexchain.Swap.{
  SwapTokenPair, get_input_price, get_swap_token_pair_name, get_pool_token_name,
  calculate_token_to_buy, new_swap_pair,
}
use okexchain.Swap.Price.{get_input_price-product}
use okexchain.Swap.Handler.{
  SwapError, swap_token_pair_exist, MsgAddLiquidity, MsgRemoveLiquidity, MsgTokenToToken, State,
  update, add_pair_name, remove_pair_name, swap_pair_name, is_drained, swap_token,
  swap_token_native_token, trade_pair, handle_msg_add_liquidity, liquidity_quote, deposit, withdraw,
  mint_pool_coins_to_user, burn_pool_coins_from_user, coin_sort, positive_coins,
  handle_msg_remove_liquidity, handle_msg_create_exchange, is_token_exist,
}
use okexchain.Swap.Handler.Pools.{pooled}
use okexchain.Swap.Handler.Liquidity.{
  Moved, handle_msg_add_liquidity-moves, handle_msg_remove_liquidity-moves,
}
use okexchain.Swap.Handler.Trades.{swap_token-moves}
use okexchain.Swap.Handler.Create.{handle_msg_create_exchange-again}
use okexchain.Tests.Setting.{dec_math, coin_math, supply_keeper, Bank}

get_input_price-product_example :
    (y : ℕ) × (get_input_price dec_math (pos 500) (pos 10000) (pos 20000) (pos 300000) ≡ pos y)
    × (y < 20000)
    × (10000 * 20000 ≤ (10000 + 500) * (20000 - y))
unfolding dec_math
get_input_price-product_example =
    get_input_price-product dec_math 500 10000 20000 300000 (omega arith) (omega arith)
      (omega arith)

abbrev Pool : Type 0
Pool = State dec_math coin_math supply_keeper

abbrev pool_pair : SwapTokenPair
pool_pair = record {
  quote_pooled_coin = coin "usdk" (pos 1000000);
  base_pooled_coin = coin "okt" (pos 1000000);
  pool_token_name = "ammswap_okt_usdk";
}

abbrev start_bank : Bank
start_bank = record {
  module_balance = λ d. pos 1000000;
  user_balance = λ u d. pos 5000000;
  supply_of = λ d. pos 1000000;
}

abbrev start : Pool
unfolding supply_keeper
start = record {
  pairs = update (λ name. none) "okt_usdk" pool_pair;
  tokens = λ name. if string_eq name "ammswap_btc_okt" then none else some 0;
  bank = start_bank;
  fee_rate = pos 300000;
  block_time = pos 50;
}

abbrev after : Result SwapError Pool → Pool
after result = elim result [ ok s' ↦ s' | err _ ↦ start ]

abbrev swap_msg : MsgTokenToToken
swap_msg = record {
  sold_token_amount = coin "usdk" (pos 10000);
  min_bought_token_amount = coin "okt" (pos 9800);
  deadline = pos 60;
  recipient = "alice";
  sender = "alice";
}

swaps :
    swap_token dec_math coin_math supply_keeper swap_msg start
    ≡ ok (after (swap_token dec_math coin_math supply_keeper swap_msg start))
unfolding swap_token swap_token_native_token trade_pair supply_keeper get_swap_token_pair_name
    calculate_token_to_buy get_input_price mul_and_quo dec_math ◌-ℤ◌ ◌+ℤ◌ amount_of coin_math
swaps = refl

swap_token-moves_example :
    (pair pair' : SwapTokenPair) × (start.pairs (swap_pair_name swap_msg) ≡ some pair)
    × ((after (swap_token dec_math coin_math supply_keeper swap_msg start)).pairs
        ≡ update start.pairs (swap_pair_name swap_msg) pair')
    × (is_drained dec_math coin_math supply_keeper pair ≡ false)
    × (pos 9800
        ≤ℤ (calculate_token_to_buy dec_math pair
            (coin "usdk" (pos 10000))
            "okt"
            (pos 300000)).amount)
    × (supply_keeper.module_balance
            (after (swap_token dec_math coin_math supply_keeper swap_msg start)).bank
            "okt"
          -ℤ supply_keeper.module_balance start.bank "okt"
        ≡ pooled "okt" pair'
          -ℤ pooled "okt" pair
          +ℤ (if supply_keeper.is_own "alice"
              then held "okt" (
                  calculate_token_to_buy dec_math pair (coin "usdk" (pos 10000)) "okt" (pos 300000))
              else pos 0))
unfolding supply_keeper
swap_token-moves_example =
    swap_token-moves dec_math coin_math supply_keeper "okt" swap_msg start
      (after (swap_token dec_math coin_math supply_keeper swap_msg start)) swaps

abbrev add_msg : MsgAddLiquidity
add_msg = record {
  min_liquidity = pos 1;
  max_base_amount = coin "okt" (pos 5000);
  quote_amount = coin "usdk" (pos 5000);
  deadline = pos 60;
  sender = "alice";
}

abbrev added : Pool
added = after (handle_msg_add_liquidity dec_math coin_math supply_keeper add_msg start)

adds : handle_msg_add_liquidity dec_math coin_math supply_keeper add_msg start ≡ ok added
unfolding start handle_msg_add_liquidity positive_coins liquidity_quote deposit
    mint_pool_coins_to_user coin_sort supply_keeper get_swap_token_pair_name mul_and_quo dec_math
    ◌-ℤ◌ ◌+ℤ◌ amount_of coin_math
adds = refl

handle_msg_add_liquidity-moves_example :
    (pair : SwapTokenPair) × (liquidity : SdkDec) × (start.pairs (add_pair_name add_msg)
      ≡ some pair)
    × (pos 1 ≤ℤ liquidity)
    × Moved dec_math coin_math supply_keeper "okt" start added (add_pair_name add_msg) pair
    × (supply_keeper.supply_of added.bank "okt"
        ≡ supply_keeper.supply_of start.bank "okt"
          +ℤ held "okt" (coin pair.pool_token_name liquidity))
unfolding supply_keeper
handle_msg_add_liquidity-moves_example =
    handle_msg_add_liquidity-moves dec_math coin_math supply_keeper "okt" add_msg start added
      (omega arith) (omega arith) adds

abbrev remove_msg : MsgRemoveLiquidity
remove_msg = record {
  liquidity = pos 2000;
  min_base_amount = coin "okt" (pos 1500);
  min_quote_amount = coin "usdk" (pos 1500);
  deadline = pos 60;
  sender = "alice";
}

abbrev removed : Pool
removed = after (handle_msg_remove_liquidity dec_math coin_math supply_keeper remove_msg start)

removes : handle_msg_remove_liquidity dec_math coin_math supply_keeper remove_msg start ≡ ok removed
unfolding start handle_msg_remove_liquidity positive_coins withdraw burn_pool_coins_from_user
    coin_sort supply_keeper get_swap_token_pair_name mul_and_quo dec_math ◌-ℤ◌ ◌+ℤ◌ amount_of
    coin_math
removes = refl

found : start.pairs (remove_pair_name remove_msg) ≡ some pool_pair
unfolding start get_swap_token_pair_name
found = refl

handle_msg_remove_liquidity-moves_example :
    Moved dec_math coin_math supply_keeper "okt" start removed
      (remove_pair_name remove_msg)
      pool_pair
    × (supply_keeper.supply_of removed.bank "okt"
        ≡ supply_keeper.supply_of start.bank "okt"
          -ℤ held "okt" (coin "ammswap_okt_usdk" (pos 2000)))
unfolding supply_keeper
handle_msg_remove_liquidity-moves_example =
    handle_msg_remove_liquidity-moves dec_math coin_math supply_keeper "okt" remove_msg start
      removed pool_pair found (omega arith) (omega arith) (omega arith) removes

abbrev created : Pool
created = after (
    handle_msg_create_exchange dec_math coin_math supply_keeper
      (record { token0_name = "okt"; token1_name = "btc" }) start)

creates :
    handle_msg_create_exchange dec_math coin_math supply_keeper
      (record { token0_name = "okt"; token1_name = "btc" })
      start
    ≡ ok created
unfolding handle_msg_create_exchange is_token_exist start get_swap_token_pair_name
    get_pool_token_name
creates = refl

okt-ne-btc : ◌≢◌ {A = String} "okt" "btc"
okt-ne-btc e = cc (ap (λ x. string_eq x "btc") e)

handle_msg_create_exchange-again_example :
    (start.pairs (get_swap_token_pair_name "okt" "btc") ≡ none)
    × (created.pairs (get_swap_token_pair_name "okt" "btc") ≡ some (new_swap_pair "okt" "btc"))
    × (handle_msg_create_exchange dec_math coin_math supply_keeper
          (record { token0_name = "btc"; token1_name = "okt" })
          created
        ≡ err swap_token_pair_exist)
unfolding supply_keeper
handle_msg_create_exchange-again_example =
    handle_msg_create_exchange-again dec_math coin_math supply_keeper "okt" "btc" start created
      okt-ne-btc creates
