-- ===== src/Order/Book.antt =====
-- x/order/types/depth_book.go: the depth book, a list of prices from high to low with what is bid
-- and offered at each.
pub mod Sorted
pub mod Insert
pub mod Remove
pub mod Laws
pub mod Removal
use okexchain.Base.{
  ℕ, suc, ◌≡◌, ℤ, pos, ◌+ℤ◌, ◌-ℤ◌, ltb_ℤ, leb_ℤ, eqb_ℤ, Bool, true, false, ◌&&◌, List, [], ◌∷◌,
  ◌++◌, if◌then◌else◌, ◌==◌, ltb, ◌-◌, length, get_or, take, drop, set, search,
}
use okexchain.Sdk.{SdkDec}
use okexchain.Order.Types.{Order, Side, buy, sell, is_buy}

pub record DepthBookItem : Type 0 where
  pub price : SdkDec
  pub buy_quantity : SdkDec
  pub sell_quantity : SdkDec

abbrev pub DepthBook : Type 0
DepthBook = List DepthBookItem

-- Go's zero value; every index below is in range.
abbrev pub zero_item : DepthBookItem
zero_item = record { price = pos 0; buy_quantity = pos 0; sell_quantity = pos 0 }

-- The item of an order that opens a price.
abbrev pub new_item : Order → DepthBookItem
new_item order = record {
  price = order.price;
  buy_quantity = if is_buy order.side then order.remain_quantity else pos 0;
  sell_quantity = if is_buy order.side then pos 0 else order.remain_quantity;
}

abbrev pub add_buy : SdkDec → DepthBookItem → DepthBookItem
add_buy num item = record item { buy_quantity = item.buy_quantity +ℤ num }

abbrev pub add_sell : SdkDec → DepthBookItem → DepthBookItem
add_sell num item = record item { sell_quantity = item.sell_quantity +ℤ num }

abbrev pub sub_buy : SdkDec → DepthBookItem → DepthBookItem
sub_buy num item = record item { buy_quantity = item.buy_quantity -ℤ num }

abbrev pub sub_sell : SdkDec → DepthBookItem → DepthBookItem
sub_sell num item = record item { sell_quantity = item.sell_quantity -ℤ num }

-- An order joins the item of its price.
abbrev pub join_item : Order → DepthBookItem → DepthBookItem
join_item order item =
    if is_buy order.side
    then add_buy order.remain_quantity item
    else add_sell order.remain_quantity item

abbrev pub is_empty_item : DepthBookItem → Bool
is_empty_item item = eqb_ℤ item.buy_quantity (pos 0) && eqb_ℤ item.sell_quantity (pos 0)

-- order.Price.GTE(depthBook.Items[i].Price)
abbrev pub at_or_below : ℤ → DepthBook → ℕ → Bool
at_or_below price book i = leb_ℤ (get_or book i zero_item).price price

pub price_index : ℤ → DepthBook → ℕ
price_index price book = search (length book) (at_or_below price book)

-- InsertOrder
unfoldable pub insert_order : Order → DepthBook → DepthBook
unfolding price_index
insert_order order book =
    let index = price_index order.price book in
    let item = get_or book index zero_item in
    let last = get_or book (length book - 1) zero_item in
    if length book == 0
    then new_item order ∷ []
    else if ltb_ℤ order.price last.price
    then book ++ new_item order ∷ []
    else if eqb_ℤ order.price item.price
    then set book index (join_item order item)
    else take index book ++ new_item order ∷ drop index book

-- Sub
unfoldable pub sub : ℕ → SdkDec → Side → DepthBook → DepthBook
sub index num buy book = set book index (sub_buy num (get_or book index zero_item))
sub index num sell book = set book index (sub_sell num (get_or book index zero_item))

-- RemoveIfEmpty: the test and the book after it.
unfoldable pub remove_if_empty : ℕ → DepthBook → Bool × DepthBook
remove_if_empty index book =
    let res = is_empty_item (get_or book index zero_item) in
    (res, if res then take index book ++ drop (suc index) book else book)

-- RemoveOrder
unfoldable pub remove_order : Order → DepthBook → DepthBook
unfolding price_index sub remove_if_empty
remove_order order book =
    let index = price_index order.price book in
    if ltb index (length book) && eqb_ℤ (get_or book index zero_item).price order.price
    then (remove_if_empty index (sub index order.remain_quantity order.side book)).1
    else book
