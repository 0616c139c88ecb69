-- ===== src/Order/Types.antt =====
-- x/order/types/order.go: the fields of an order, its side and its status.
use Prim.Native.String.{String}
use okexchain.Base.{Bool, true, false, List, [], ◌∷◌, Option, none, some, if◌then◌else◌}
use okexchain.Sdk.{SdkDec}
use okexchain.Swap.Redeem.{split}

-- BuyOrder and SellOrder; MsgNewOrders.ValidateBasic admits no other side.
pub data Side : Type 0 where
  buy sell : Side

abbrev pub is_buy : Side → Bool
is_buy buy = true
is_buy sell = false

pub data OrderStatus : Type 0 where
  open_order filled cancelled expired partial_filled_cancelled partial_filled_expired : OrderStatus

-- The transaction's hash, the fee fields and the extra information, which is a text of JSON, are
-- left out.
pub record Order : Type 0 where
  pub order_id : String
  pub sender : String
  pub product : String
  pub side : Side
  pub price : SdkDec
  pub quantity : SdkDec
  pub status : OrderStatus
  pub filled_avg_price : SdkDec
  pub remain_quantity : SdkDec
  pub remain_locked : SdkDec

abbrev pub second_of : List String → Option String
second_of [] = none
second_of (token ∷ tokens) = some token

-- strings.Split(product, "_") at 0 and at 1; at 1 the index is out of range where the product has no
-- underscore, and Go panics.
abbrev pub base_token : String → String
base_token product = (split product).0

abbrev pub quote_token : String → Option String
quote_token product = second_of (split product).1

-- The token that an order locks: a bid the quote token, an ask the base token.
unfoldable pub locked_token : Order → Option String
locked_token order =
    if is_buy order.side then quote_token order.product else some (base_token order.product)
