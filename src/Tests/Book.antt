-- ===== src/Tests/Book.antt =====
-- The depth book on two items and one order.
use okexchain.Base.{search, ℤ, pos, ◌≡◌, ◌+ℤ◌, ◌-ℤ◌, refl, [], ◌∷◌, arith}
use okexchain.Order.Types.{Order, buy, open_order}
use okexchain.Order.Book.{DepthBook, DepthBookItem, insert_order, remove_order}
use okexchain.Order.Book.Sorted.{IsSorted}
use okexchain.Order.Book.Insert.{scan_insert, insert_order-scan}
use okexchain.Order.Book.Remove.{scan_remove, remove_order-scan}
use okexchain.Order.Book.Laws.{
  update-IsSorted, quantity_at, share, quantity_at-insert_order, remove_order-insert_order,
}
use okexchain.Order.Book.Removal.{quantity_at-remove_order}
use okexchain.Common.{mul_and_quo}
use okexchain.Common.Exact.{mul_and_quo-exact}
use okexchain.Tests.Setting.{dec_math}

abbrev item : ℤ → ℤ → ℤ → DepthBookItem
item price buys sells = record { price = price; buy_quantity = buys; sell_quantity = sells }

abbrev two_items : DepthBook
two_items = item (pos 12) (pos 0) (pos 5) ∷ item (pos 10) (pos 7) (pos 0) ∷ []

abbrev bid_at : ℤ → Order
bid_at price = record {
  order_id = "ID0000000001-1";
  sender = "alice";
  product = "btc_okt";
  side = buy;
  price = price;
  quantity = pos 3;
  status = open_order;
  filled_avg_price = pos 0;
  remain_quantity = pos 3;
  remain_locked = pos 30;
}

two_items-IsSorted : IsSorted two_items
two_items-IsSorted = ((omega arith, tt), (tt, tt))

bid_between :
    insert_order (bid_at (pos 11)) two_items
    ≡ item (pos 12) (pos 0) (pos 5)
      ∷ item (pos 11) (pos 3) (pos 0)
      ∷ item (pos 10) (pos 7) (pos 0)
      ∷ []
unfolding insert_order search
bid_between = refl

insert_order-scan_example :
    insert_order (bid_at (pos 11)) two_items ≡ scan_insert (bid_at (pos 11)) two_items
insert_order-scan_example = insert_order-scan (bid_at (pos 11)) two_items two_items-IsSorted

remove_order-scan_example :
    remove_order (bid_at (pos 10)) two_items ≡ scan_remove (bid_at (pos 10)) two_items
remove_order-scan_example = remove_order-scan (bid_at (pos 10)) two_items two_items-IsSorted

update-IsSorted_example :
    IsSorted (insert_order (bid_at (pos 11)) two_items)
    × IsSorted (remove_order (bid_at (pos 11)) two_items)
update-IsSorted_example = update-IsSorted (bid_at (pos 11)) two_items two_items-IsSorted

quantity_at-insert_order_example :
    quantity_at buy (pos 10) (insert_order (bid_at (pos 10)) two_items)
    ≡ quantity_at buy (pos 10) two_items +ℤ share buy (pos 10) (bid_at (pos 10))
quantity_at-insert_order_example =
    quantity_at-insert_order buy (pos 10) (bid_at (pos 10)) two_items two_items-IsSorted

quantity_at-remove_order_example :
    quantity_at buy (pos 10) (remove_order (bid_at (pos 10)) two_items)
    ≡ quantity_at buy (pos 10) two_items -ℤ share buy (pos 10) (bid_at (pos 10))
unfolding quantity_at
quantity_at-remove_order_example =
    quantity_at-remove_order buy (pos 10) (bid_at (pos 10)) two_items two_items-IsSorted
      (omega arith)

remove_order-insert_order_example :
    remove_order (bid_at (pos 11)) (insert_order (bid_at (pos 11)) two_items) ≡ two_items
remove_order-insert_order_example =
    remove_order-insert_order (bid_at (pos 11)) two_items two_items-IsSorted (refl, (refl, tt))

mul_and_quo-exact_example : mul_and_quo dec_math (pos 7) (pos 5) (pos 3) ≡ pos 11
mul_and_quo-exact_example = mul_and_quo-exact dec_math 7 5 3 (omega arith)
