-- ===== src/Order/Best.antt =====
-- GetBestBidAndAsk of x/order/keeper/keeper.go.
pub mod Laws
use okexchain.Base.{ℤ, pos, ltb_ℤ, ◌&&◌, List, [], ◌∷◌, if◌then◌else◌}
use okexchain.Sdk.{SdkDec}
use okexchain.Order.Book.{DepthBook, DepthBookItem}

unfoldable pub best_from : SdkDec → SdkDec → DepthBook → SdkDec × SdkDec
best_from best_bid best_ask [] = (best_bid, best_ask)
best_from best_bid best_ask (item ∷ items) =
    let bids = ltb_ℤ (pos 0) item.buy_quantity && ltb_ℤ best_bid item.price in
    let asks = ltb_ℤ (pos 0) item.sell_quantity && ltb_ℤ item.price best_ask in
    best_from (if bids then item.price else best_bid) (if asks then item.price else best_ask) items

-- GetBestBidAndAsk
unfoldable pub get_best_bid_and_ask : DepthBook → SdkDec × SdkDec
unfolding best_from
get_best_bid_and_ask book = best_from (pos 0) (pos 0) book
