-- ===== src/Tests/Fill.antt =====
-- Two sell orders at one price, filled in part.

use okexchain.Base.{
  none, subst, ℤ, pos, ◌≡◌, ◌⊎◌, ◌+ℤ◌, ◌≤ℤ◌, refl, inr, List, [], ◌∷◌, All, some, arith,
}
use okexchain.Order.Types.{Order, buy, sell, open_order, filled}
use okexchain.Order.Fill.{FillKeeper, Fills, fill, new_order, fill_order_by_key}
use okexchain.Order.Fill.Laws.{IsFillable, remaining, dealt, fill_order_by_key-fills}
use okexchain.Order.Book.{DepthBook}
use okexchain.Order.Fill.Sides.{Queues, set_queue, fill_buy_orders}
use okexchain.Order.Fill.Sides.Queue.{IsBacked}
use okexchain.Order.Fill.Sides.Backed.{IsFillableBook, Filled, fill_buy_orders-Filled}
use okexchain.Order.Fill.Sound.{IsSound, fill-IsSound}
use okexchain.Tests.Setting.{dec_math}
use okexchain.Tests.Farm.{coin_sets, module_bank}
use okexchain.Tests.Keeper.{formats, grows, subtracts, start}
use okexchain.Swap.Redeem.{split}
use okexchain.Sdk.{coin}
use okexchain.Order.Fill.Charge.{Market, Pays, order_fill_keeper}

abbrev market : Market coin_sets module_bank
market = record {
  height = pos 9;
  native = "okt";
  trade_fee_rate = pos 100000;
  last_price = λ product. pos 1000000000;
  owner = λ product. some "owner";
  handling_fee_address = λ account. none;
  fee_of = λ id. (coin "okt" (pos 5), pos 100);
  send_coins = λ from to coins bank. some bank;
  coins_text = λ coins. "";
}

abbrev fill_keeper : FillKeeper
fill_keeper = order_fill_keeper coin_sets module_bank formats "fee_collector" market grows subtracts

abbrev ask_of : ℤ → Order
ask_of quantity = record {
  order_id = "ID0000000002-1";
  sender = "bob";
  product = "btc_okt";
  side = sell;
  price = pos 10;
  quantity = quantity;
  status = open_order;
  filled_avg_price = pos 0;
  remain_quantity = quantity;
  remain_locked = quantity;
}

abbrev two_asks : List Order
two_asks = ask_of (pos 4) ∷ ask_of (pos 6) ∷ []

covered : pos 7 ≤ℤ remaining two_asks
unfolding remaining ◌+ℤ◌
covered = omega arith

ask_accounted :
    Pays coin_sets module_bank formats "fee_collector" market "btc_okt" sell "ID0000000002-1"
unfolding split
ask_accounted = record {
  quote = "okt";
  has_quote = refl;
  rich = omega arith;
  some_blocks = omega arith;
}

two_asks-IsFillable : All (IsFillable dec_math fill_keeper) two_asks
two_asks-IsFillable = (
  record { pays = ask_accounted; wants = omega arith; at_most = omega arith },
  (record { pays = ask_accounted; wants = omega arith; at_most = omega arith }, tt),
)

fill_order_by_key-fills_example :
    (fills : Fills dec_math fill_keeper) × (fill_order_by_key dec_math fill_keeper
        (pos 7)
        (pos 10)
        (pos 100)
        two_asks
        start.locks
      ≡ some fills)
    × (remaining fills.queue +ℤ fills.amount ≡ remaining two_asks)
    × (fills.amount ≡ dealt fills.deals)
    × (fills.amount ≤ℤ pos 7)
    × ((fills.amount ≡ pos 7) ⊎ (pos 100 ≤ℤ fills.count))
    × All (λ order. order.status ≡ filled) fills.updated
fill_order_by_key-fills_example =
    fill_order_by_key-fills dec_math fill_keeper (pos 7) (pos 10) (pos 100) two_asks start.locks
      two_asks-IsFillable (omega arith) covered

ask_of-IsSound : IsSound (ask_of (pos 4))
ask_of-IsSound = (omega arith, omega arith, inr (refl, omega arith), λ e. refl)

fill-IsSound_example :
    IsSound (new_order dec_math "bob" "btc_okt" sell (pos 10) (pos 4))
    × ((order' : Order) × (fill dec_math (pos 11) (pos 4) (ask_of (pos 4)) ≡ some order')
        × IsSound order')
fill-IsSound_example =
    fill-IsSound dec_math "bob" "btc_okt" sell (pos 10) (pos 4) (pos 11) (pos 4) (ask_of (pos 4))
      (omega arith) ask_of-IsSound refl (omega arith) (omega arith)

abbrev bid_of : ℤ → Order
bid_of quantity = record (ask_of quantity) { side = buy }

abbrev bids : Queues
bids = set_queue (λ p. none) (pos 10) (bid_of (pos 4) ∷ bid_of (pos 6) ∷ [])

abbrev bid_book : DepthBook
bid_book = record { price = pos 10; buy_quantity = pos 10; sell_quantity = pos 0 } ∷ []

bid_book-IsBacked : IsBacked bids bid_book
unfolding remaining ◌+ℤ◌
bid_book-IsBacked = (refl, omega arith, tt)

bid_accounted :
    Pays coin_sets module_bank formats "fee_collector" market "btc_okt" buy "ID0000000002-1"
unfolding split
bid_accounted = record {
  quote = "okt";
  has_quote = refl;
  rich = omega arith;
  some_blocks = omega arith;
}

two_bids-IsFillable : All (IsFillable dec_math fill_keeper) (bid_of (pos 4) ∷ bid_of (pos 6) ∷ [])
two_bids-IsFillable = (
  record { pays = bid_accounted; wants = omega arith; at_most = omega arith },
  (record { pays = bid_accounted; wants = omega arith; at_most = omega arith }, tt),
)

bid_book-IsFillableBook : IsFillableBook dec_math fill_keeper bids bid_book
bid_book-IsFillableBook =
    (λ queue e. subst (All (IsFillable dec_math fill_keeper)) (the_queue e) two_bids-IsFillable, tt)
  where
    the_queue :
        {queue : List Order}
        → bids (pos 10) ≡ some queue
        → (bid_of (pos 4) ∷ bid_of (pos 6) ∷ []) ≡ queue
    the_queue e = cc

fill_buy_orders-Filled_example :
    Filled dec_math fill_keeper (pos 10) (pos 7) (pos 0) bids bid_book (
      fill_buy_orders dec_math fill_keeper
        (pos 10)
        (pos 7)
        (pos 0)
        (pos 100)
        bids
        start.locks
        bid_book)
fill_buy_orders-Filled_example =
    fill_buy_orders-Filled dec_math fill_keeper (pos 10) (pos 7) (pos 0) (pos 100) bids start.locks
      bid_book (tt, tt) bid_book-IsBacked bid_book-IsFillableBook (omega arith)
