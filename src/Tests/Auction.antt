-- ===== src/Tests/Auction.antt =====
-- The periodic auction on a book of three prices.
use okexchain.Base.{
  ◌<◌, ◌⊎◌, length, ℤ, pos, ◌≡◌, ◌≤ℤ◌, ◌-ℤ◌, ◌+ℤ◌, refl, List, [], ◌∷◌, All, arith, get_or, abs,
  min_ℤ, max_ℤ,
}
use okexchain.Order.Book.{DepthBook, DepthBookItem}
use okexchain.Order.Book.Sorted.{IsSorted}
use okexchain.Order.Auction.{
  first_index, last_index, market_ref_price, buy_amount_sum, sell_amount_sum, price_at, exec_rule0,
  exec_rule1, exec_rule2, exec_rule3, choose_price, best_price_from_ref_price, match_price,
}
use okexchain.Order.Auction.Curves.{demand, supply, executable, IsNonneg, amount_sums-curves}
use okexchain.Order.Auction.Select.{kept, is_least, exec_rule2-least}
use okexchain.Order.Auction.Price.{best_price_from_ref_price-clamp, match_price-largest}
use okexchain.Order.Auction.Offset.{ReadsInside, best_indexes, balanced, pressure, exec_rule3-reads}
use okexchain.Order.Best.{get_best_bid_and_ask}
use okexchain.Order.Best.Laws.{NoBidAbove, IsBidden, get_best_bid_and_ask-lem}
use okexchain.Tests.Setting.{dec_math}

abbrev item : ℤ → ℤ → ℤ → DepthBookItem
item price buys sells = record { price = price; buy_quantity = buys; sell_quantity = sells }

abbrev three_items : DepthBook
three_items =
    item (pos 12) (pos 4) (pos 1)
    ∷ item (pos 11) (pos 2) (pos 3)
    ∷ item (pos 10) (pos 5) (pos 4)
    ∷ []

three_items-IsSorted : IsSorted three_items
three_items-IsSorted = ((omega arith, (omega arith, tt)), ((omega arith, tt), (tt, tt)))

three_items-IsNonneg : IsNonneg three_items
three_items-IsNonneg =
    (omega arith, omega arith, (omega arith, omega arith, (omega arith, omega arith, tt)))

price_and_volume : match_price dec_math three_items (pos 8) (pos 11) ≡ (pos 11, pos 6)
unfolding match_price exec_rule0 exec_rule1 exec_rule2 exec_rule3 choose_price buy_amount_sum
    sell_amount_sum max_ℤ min_ℤ ◌+ℤ◌ ◌-ℤ◌ dec_math
price_and_volume = refl

match_price-largest_example :
    let (price, volume) = match_price dec_math three_items (pos 8) (pos 11) in
    (executable price three_items ≡ volume) × ((p : ℤ) → executable p three_items ≤ℤ volume)
match_price-largest_example =
    match_price-largest dec_math three_items (pos 8) (pos 11) three_items-IsSorted
      three_items-IsNonneg

amount_sums-curves_example :
    (get_or (buy_amount_sum three_items) 1 (pos 0) ≡ demand (price_at three_items 1) three_items)
    × (get_or (sell_amount_sum three_items) 1 (pos 0) ≡ supply (price_at three_items 1) three_items)
amount_sums-curves_example = amount_sums-curves three_items 1 three_items-IsSorted (omega arith)

abbrev buys : List ℤ
buys = pos 4 ∷ pos 6 ∷ pos 11 ∷ []

abbrev sells : List ℤ
sells = pos 8 ∷ pos 7 ∷ pos 4 ∷ []

exec_rule2-least_example :
    (exec_rule2 buys sells (0 ∷ 1 ∷ [])).0 ≡ kept (is_least buys sells (0 ∷ 1 ∷ [])) (0 ∷ 1 ∷ [])
exec_rule2-least_example = exec_rule2-least buys sells (0 ∷ 1 ∷ [])

best_price_from_ref_price-clamp_example :
    best_price_from_ref_price (pos 12) (pos 10) (pos 15) ≡ max_ℤ (pos 10) (min_ℤ (pos 15) (pos 12))
best_price_from_ref_price-clamp_example =
    best_price_from_ref_price-clamp (pos 12) (pos 10) (pos 15) (omega arith)

-- A book in which two prices trade the same with the same imbalance.
abbrev flat_items : DepthBook
flat_items = item (pos 11) (pos 4) (pos 0) ∷ item (pos 10) (pos 0) (pos 2) ∷ []

flat_items-IsSorted : IsSorted flat_items
flat_items-IsSorted = (omega arith, (tt, tt))

flat_items-IsNonneg : IsNonneg flat_items
flat_items-IsNonneg = (omega arith, omega arith, (omega arith, omega arith, tt))

two_left : 0 < length (balanced flat_items flat_items-IsSorted flat_items-IsNonneg).0
unfolding exec_rule0 exec_rule1 exec_rule2 buy_amount_sum sell_amount_sum max_ℤ min_ℤ ◌+ℤ◌ ◌-ℤ◌ abs
two_left = omega arith

exec_rule3-reads_example :
    All
      (ReadsInside flat_items flat_items-IsSorted flat_items-IsNonneg)
      (balanced flat_items flat_items-IsSorted flat_items-IsNonneg).0
    × (exec_rule3 dec_math flat_items
          (first_index (best_indexes flat_items flat_items-IsSorted flat_items-IsNonneg))
          (pos 10)
          (pos 4)
          (balanced flat_items flat_items-IsSorted flat_items-IsNonneg).0
          (balanced flat_items flat_items-IsSorted flat_items-IsNonneg).1
        ≡ best_price_from_ref_price
            (price_at flat_items
              (first_index (balanced flat_items flat_items-IsSorted flat_items-IsNonneg).0))
            (price_at flat_items
              (last_index (balanced flat_items flat_items-IsSorted flat_items-IsNonneg).0))
            (market_ref_price dec_math
              (pos 10)
              (pos 4)
              (pressure flat_items flat_items-IsSorted flat_items-IsNonneg
                (first_index (balanced flat_items flat_items-IsSorted flat_items-IsNonneg).0))
              (pressure flat_items flat_items-IsSorted flat_items-IsNonneg
                (last_index (balanced flat_items flat_items-IsSorted flat_items-IsNonneg).0))))
exec_rule3-reads_example =
    exec_rule3-reads flat_items flat_items-IsSorted flat_items-IsNonneg dec_math (pos 10) (pos 4)
      two_left

get_best_bid_and_ask-lem_example :
    All (NoBidAbove (get_best_bid_and_ask three_items).0) three_items
    × (((get_best_bid_and_ask three_items).0 ≡ pos 0)
        ⊎ IsBidden (get_best_bid_and_ask three_items).0 three_items)
    × ((get_best_bid_and_ask three_items).1 ≡ pos 0)
get_best_bid_and_ask-lem_example =
    get_best_bid_and_ask-lem three_items (omega arith, (omega arith, (omega arith, tt)))
