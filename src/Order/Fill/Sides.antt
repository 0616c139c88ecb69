-- ===== src/Order/Fill/Sides.antt =====
-- fillBuyOrders (x/order/match/periodicauction/fill.go): the fill of one product's bids, price by
-- price. The index of the loop only moves along the book, so the loop recurses on the items ahead.
pub mod Queue
pub mod Backed
use okexchain.Base.{
  ℤ, pos, ◌+ℤ◌, ◌-ℤ◌, ltb_ℤ, leb_ℤ, eqb_ℤ, min_ℤ, Bool, true, false, ◌&&◌, not, List, [], ◌∷◌, ◌++◌,
  Option, none, some, if◌then◌else◌,
}
use okexchain.Sdk.{SdkDec, DecMath}
use okexchain.Order.Types.{Order}
use okexchain.Order.Book.{DepthBook, DepthBookItem, sub_buy, is_empty_item}
use okexchain.Order.Fill.{Deal, FillKeeper, Fills, stop, fill_order_by_key}

-- The queues of a product's bids, by price; `none` is a key that is missing.
abbrev pub Queues : Type 0
Queues = SdkDec → Option (List Order)

abbrev pub set_queue : Queues → SdkDec → List Order → Queues
set_queue queues price [] p = if eqb_ℤ price p then none else queues p
set_queue queues price (order ∷ orders) p =
    if eqb_ℤ price p then some (order ∷ orders) else queues p

module _ (m : DecMath) (k : FillKeeper) (best_price max_execution : SdkDec) where
  open k use {World}

  -- The loop's variables: what is executed, the deals that remain for the block, the deals made.
  pub record Run : Type 0 where
    pub deals : List Deal
    pub executed : SdkDec
    pub remain_deals : ℤ
    pub queues : Queues
    pub world : World
    pub book : DepthBook

  abbrev pub keep_unless_empty : DepthBookItem → DepthBook → DepthBook
  keep_unless_empty item items = if is_empty_item item then items else item ∷ items

  abbrev pub extend : List Deal → (DepthBook → DepthBook) → Option Run → Option Run
  extend deals f none = none
  extend deals f (some run) = some (record run { deals = deals ++ run.deals; book = f run.book })

  -- The call of fillOrderByKey at a price, with SetOrderIDs.
  unfoldable pub fill_price : SdkDec → SdkDec → ℤ → Queues → World → Option (Fills m k × Queues)
  fill_price price amount remain queues w = elim (queues price) [
    | none ↦ some (stop m k (pos 0) (pos 0) [] w, queues)
    | some queue ↦ elim (fill_order_by_key m k amount best_price remain queue w) [
      | none ↦ none
      | some fills ↦ some (fills, set_queue queues price fills.queue)
    ]
  ]

  abbrev pub halt : List Deal → SdkDec → ℤ → Queues → World → DepthBook → Run
  halt deals executed remain queues w book = record {
    deals = deals;
    executed = executed;
    remain_deals = remain;
    queues = queues;
    world = w;
    book = book;
  }

  unfoldable pub fill_buy_orders : SdkDec → ℤ → Queues → World → DepthBook → Option Run
  fill_buy_orders executed remain queues w [] = some (halt [] executed remain queues w [])
  fill_buy_orders executed remain queues w (item ∷ items) =
      let amount = min_ℤ item.buy_quantity (max_execution -ℤ executed) in
      let skipped = fill_buy_orders executed remain queues w items in
      let filled : Option Run = elim (fill_price item.price amount remain queues w) [
        | none ↦ none
        | some (fills, queues1) ↦
            let remain1 = remain -ℤ fills.count in
            let executed1 = executed +ℤ fills.amount in
            let keep = keep_unless_empty (sub_buy fills.amount item) in
            let rest = fill_buy_orders executed1 remain1 queues1 fills.world items in
            if leb_ℤ remain1 (pos 0)
            then some (halt fills.deals executed1 remain1 queues1 fills.world (keep items))
            else extend fills.deals keep rest
      ] in
      if not (leb_ℤ best_price item.price && ltb_ℤ executed max_execution)
      then some (halt [] executed remain queues w (item ∷ items))
      else if eqb_ℤ amount (pos 0)
      then extend [] (◌∷◌ item) skipped
      else filled
