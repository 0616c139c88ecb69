-- ===== src/Order/Fill.antt =====
-- An order's changes (x/order/types/order.go) and the fill of the orders at one price
-- (x/order/match/periodicauction/fill.go). The queue of a key holds the orders themselves in place of
-- their ids. What a fill does to accounts and fees is the interface FillKeeper,
-- which Charge fills.
pub mod Laws
pub mod Sound
pub mod Sides
pub mod Charge
use Prim.Native.String.{String}
use okexchain.Base.{
  ◌≡◌, ℤ, pos, ◌+ℤ◌, ◌-ℤ◌, ltb_ℤ, leb_ℤ, eqb_ℤ, Bool, true, false, ◌&&◌, List, [], ◌∷◌, Option,
  none, some, if◌then◌else◌,
}
use okexchain.Sdk.{SdkDec, DecMath, Coin, coin}
use okexchain.Order.Types.{
  Order, Side, is_buy, OrderStatus, open_order, filled, cancelled, expired,
  partial_filled_cancelled, partial_filled_expired,
}

infixl 5 ◌>>=◌
abbrev pub ◌>>=◌ {ℓ κ} : {A : Type ℓ} {B : Type κ} → Option A → (A → Option B) → Option B
none >>= rest = none
some a >>= rest = rest a

pub record Deal : Type 0 where
  pub order_id : String
  pub side : Side
  pub quantity : SdkDec
  pub fee : String
  pub fee_receiver : String

-- What a fill does to the accounts: balanceAccount, the unlock of what a filled order has left, and
-- chargeFee, each of which may panic, and the orders for which none of them does, by the product,
-- the side and the id, which a fill leaves as they are.
pub record FillKeeper : Type 1 where
  pub World : Type 0
  pub Pays : String → Side → String → Type 0
  pub balance_order : Order → SdkDec → SdkDec → World → Option World
  pub unlock_rest : Order → World → Option World
  pub charge_fee : Order → SdkDec → World → Option (World × (String × String))
  pub balance_order-returns :
      (order : Order) (price quantity : SdkDec) (w : World)
      → Pays order.product order.side order.order_id
      → (w' : World) × (balance_order order price quantity w ≡ some w')
  pub unlock_rest-returns :
      (order : Order) (w : World)
      → Pays order.product order.side order.order_id
      → (w' : World) × (unlock_rest order w ≡ some w')
  pub charge_fee-returns :
      (order : Order) (quantity : SdkDec) (w : World)
      → Pays order.product order.side order.order_id
      → (out : World × (String × String)) × (charge_fee order quantity w ≡ some out)

-- Cancel and Expire
unfoldable pub cancel : Order → Order
cancel order =
    if eqb_ℤ order.remain_quantity order.quantity
    then record order { status = cancelled }
    else record order { status = partial_filled_cancelled }

unfoldable pub expire : Order → Order
expire order =
    if eqb_ℤ order.remain_quantity order.quantity
    then record order { status = expired }
    else record order { status = partial_filled_expired }

-- Unlock
abbrev pub unlock : Order → Order
unlock order = record order { remain_locked = pos 0 }

module _ (m : DecMath) where
  open m use {mul, quo}

  -- NewOrder
  unfoldable pub new_order : String → String → Side → SdkDec → SdkDec → Order
  new_order sender product side price quantity = record {
    order_id = "";
    sender = sender;
    product = product;
    side = side;
    price = price;
    quantity = quantity;
    status = open_order;
    filled_avg_price = pos 0;
    remain_quantity = quantity;
    remain_locked = if is_buy side then mul price quantity else quantity;
  }

  -- Fill; `none` is the panic of a quotient by zero.
  unfoldable pub fill : SdkDec → SdkDec → Order → Option Order
  fill price amount order =
      let filled_sum = mul order.filled_avg_price (order.quantity -ℤ order.remain_quantity) in
      let remain = order.remain_quantity -ℤ amount in
      let locked = order.remain_locked in
      if eqb_ℤ (order.quantity -ℤ remain) (pos 0)
      then none
      else some (record order {
        remain_quantity = remain;
        filled_avg_price = quo (filled_sum +ℤ mul price amount) (order.quantity -ℤ remain);
        remain_locked = if is_buy order.side then locked -ℤ mul price amount else locked -ℤ amount;
        status = if eqb_ℤ remain (pos 0) then filled else order.status;
      })

  abbrev pub is_filled : OrderStatus → Bool
  is_filled filled = true
  is_filled _ = false

  module _ (k : FillKeeper) where
    open k use {World, balance_order, unlock_rest, charge_fee}

    -- What is left of fillOrder once the order is filled and its coins are exchanged.
    unfoldable pub settle_order : SdkDec → Order → World → Option (Order × World × Deal)
    settle_order quantity order w = do
      let test : Bool = is_filled order.status && ltb_ℤ (pos 0) order.remain_locked
      w1 ← if test then unlock_rest order w else some w
      let left : Order = if test then unlock order else order
      (w2, (fee, receiver)) ← charge_fee left quantity w1
      some (
        left,
        w2,
        record {
          order_id = left.order_id;
          side = left.side;
          quantity = quantity;
          fee = fee;
          fee_receiver = receiver;
        },
      )

    -- fillOrder: the order after it, the accounts, and the deal.
    unfoldable pub fill_order : SdkDec → SdkDec → Order → World → Option (Order × World × Deal)
    unfolding fill settle_order
    fill_order price quantity order w = do
      order' ← fill price quantity order
      w' ← balance_order order' price quantity w
      settle_order quantity order' w'

    -- What fillOrderByKey leaves: its deals, the amount and the number of orders filled, the orders
    -- that are filled, and the queue.
    pub record Fills : Type 0 where
      pub deals : List Deal
      pub amount : SdkDec
      pub count : ℤ
      pub updated : List Order
      pub queue : List Order
      pub world : World

    abbrev pub stop : SdkDec → ℤ → List Order → World → Fills
    stop amount count queue w = record {
      deals = [];
      amount = amount;
      count = count;
      updated = [];
      queue = queue;
      world = w;
    }

    abbrev pub add_deal : Deal → Order → Option Fills → Option Fills
    add_deal deal order none = none
    add_deal deal order (some fills) =
        some (record fills { deals = deal ∷ fills.deals; updated = order ∷ fills.updated })

    -- The loop of fillOrderByKey; past the end of the queue the index is out of range, and Go panics.
    unfoldable pub fill_from : SdkDec → SdkDec → ℤ → SdkDec → ℤ → List Order → World → Option Fills
    fill_from need price deals amount count [] w =
        if ltb_ℤ count deals && ltb_ℤ amount need then none else some (stop amount count [] w)
    fill_from need price deals amount count (order ∷ orders) w =
        let total = amount +ℤ order.remain_quantity in
        let whole : Option Fills = (do
          (order1, w1, deal1) ← fill_order price order.remain_quantity order w
          add_deal deal1 order1 (fill_from need price deals total (count +ℤ pos 1) orders w1)) in
        let part : Option Fills = (do
          (order2, w2, deal2) ← fill_order price (need -ℤ amount) order w
          some (record (stop need count (order2 ∷ orders) w2) { deals = deal2 ∷ [] })) in
        if ltb_ℤ count deals && ltb_ℤ amount need
        then (if leb_ℤ total need then whole else part)
        else some (stop amount count (order ∷ orders) w)

    -- fillOrderByKey
    unfoldable pub fill_order_by_key : SdkDec → SdkDec → ℤ → List Order → World → Option Fills
    unfolding fill_from
    fill_order_by_key need price deals queue w = fill_from need price deals (pos 0) (pos 0) queue w
