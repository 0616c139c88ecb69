-- ===== src/Order/Auction.antt =====
-- x/order/match/periodicauction/match.go: the price and the volume of a periodic auction.
pub mod Curves
pub mod Select
pub mod Volume
pub mod Price
pub mod Offset
use okexchain.Base.{
  ℕ, suc, ◌*◌, ◌/◌, ◌-◌, ℤ, pos, ◌+ℤ◌, ◌-ℤ◌, ltb_ℤ, leb_ℤ, eqb_ℤ, min_ℤ, max_ℤ, abs, List, [], ◌∷◌,
  map, if◌then◌else◌, ◌==◌, length, get_or,
}
use okexchain.Sdk.{SdkDec, DecMath}
use okexchain.Order.Book.{DepthBook, DepthBookItem, zero_item}

-- The loops of preMatchProcessing: buyAmountSum runs from the head, sellAmountSum from the end.
pub buy_sums_from : SdkDec → DepthBook → List SdkDec
buy_sums_from sum [] = []
buy_sums_from sum (item ∷ items) =
    (sum +ℤ item.buy_quantity) ∷ buy_sums_from (sum +ℤ item.buy_quantity) items

unfoldable pub buy_amount_sum : DepthBook → List SdkDec
unfolding buy_sums_from
buy_amount_sum [] = []
buy_amount_sum (item ∷ items) = item.buy_quantity ∷ buy_sums_from item.buy_quantity items

pub push_sell : SdkDec → List SdkDec → List SdkDec
push_sell quantity [] = quantity ∷ []
push_sell quantity (sum ∷ sums) = (sum +ℤ quantity) ∷ sum ∷ sums

unfoldable pub sell_amount_sum : DepthBook → List SdkDec
unfolding push_sell
sell_amount_sum [] = []
sell_amount_sum (item ∷ items) = push_sell item.sell_quantity (sell_amount_sum items)

-- execRule0
pub executions : List SdkDec → List SdkDec → List SdkDec
executions (b ∷ buys) (s ∷ sells) = min_ℤ b s ∷ executions buys sells
executions _ _ = []

pub max_execution_from : SdkDec → List SdkDec → SdkDec
max_execution_from best [] = best
max_execution_from best (e ∷ execution) = max_execution_from (max_ℤ e best) execution

unfoldable pub exec_rule0 : List SdkDec → List SdkDec → SdkDec × List SdkDec
unfolding executions max_execution_from
exec_rule0 buys sells =
    let execution = executions buys sells in (max_execution_from (pos 0) execution, execution)

-- execRule1: the indexes, counted from `i`, of the largest executions.
pub indexes_from : ℕ → SdkDec → List SdkDec → List ℕ
indexes_from i best [] = []
indexes_from i best (e ∷ execution) =
    let rest = indexes_from (suc i) best execution in if eqb_ℤ e best then i ∷ rest else rest

unfoldable pub exec_rule1 : SdkDec → List SdkDec → List ℕ
unfolding indexes_from
exec_rule1 best execution = indexes_from 0 best execution

-- execRule2
pub imbalance_at : List SdkDec → List SdkDec → ℕ → SdkDec
imbalance_at buys sells i = get_or buys i (pos 0) -ℤ get_or sells i (pos 0)

pub min_abs_from : SdkDec → List SdkDec → SdkDec
min_abs_from best [] = best
min_abs_from best (x ∷ imbalance) = min_abs_from (min_ℤ best (abs x)) imbalance

unfoldable pub min_abs_imbalance : List SdkDec → SdkDec
unfolding min_abs_from
min_abs_imbalance [] = pos 0
min_abs_imbalance (x ∷ imbalance) = min_abs_from (abs x) imbalance

pub select_balanced : SdkDec → List ℕ → List SdkDec → List ℕ
select_balanced best (i ∷ indexes) (x ∷ imbalance) =
    let rest = select_balanced best indexes imbalance in
    if eqb_ℤ (abs x) best then i ∷ rest else rest
select_balanced best _ _ = []

unfoldable pub exec_rule2 : List SdkDec → List SdkDec → List ℕ → List ℕ × List SdkDec
unfolding imbalance_at min_abs_imbalance select_balanced
exec_rule2 buys sells indexes =
    let imbalance = map (imbalance_at buys sells) indexes in
    (select_balanced (min_abs_imbalance imbalance) indexes imbalance, imbalance)

-- bestPriceFromRefPrice
unfoldable pub best_price_from_ref_price : SdkDec → SdkDec → SdkDec → SdkDec
best_price_from_ref_price min_price max_price ref_price =
    if leb_ℤ min_price ref_price
    then min_price
    else if leb_ℤ ref_price max_price
    then max_price
    else ref_price

abbrev pub price_at : DepthBook → ℕ → SdkDec
price_at book i = (get_or book i zero_item).price

abbrev pub first_index : List ℕ → ℕ
first_index indexes = get_or indexes 0 0

abbrev pub last_index : List ℕ → ℕ
last_index indexes = get_or indexes (length indexes - 1) 0

module _ (m : DecMath) where
  open m use {unit, mul, round_decimal}

  -- "1.05" and "0.95"
  abbrev pub upper_limit : SdkDec
  upper_limit = pos (105 * unit / 100)

  abbrev pub lower_limit : SdkDec
  lower_limit = pos (95 * unit / 100)

  -- The reference price of execRule3, by the imbalances at the first and the last index.
  unfoldable pub market_ref_price : SdkDec → ℤ → SdkDec → SdkDec → SdkDec
  market_ref_price ref_price precision first last =
      if ltb_ℤ (pos 0) first
      then round_decimal (mul ref_price upper_limit) precision
      else if ltb_ℤ last (pos 0)
      then round_decimal (mul ref_price lower_limit) precision
      else round_decimal ref_price precision

  -- execRule3
  unfoldable pub exec_rule3 : DepthBook → ℕ → SdkDec → ℤ → List ℕ → List SdkDec → SdkDec
  exec_rule3 book offset ref_price precision indexes imbalance =
      let first = get_or imbalance (first_index indexes - offset) (pos 0) in
      let last = get_or imbalance (last_index indexes - offset) (pos 0) in
      best_price_from_ref_price (price_at book (first_index indexes))
        (price_at book (last_index indexes)) (market_ref_price ref_price precision first last)

  -- The choice of periodicAuctionMatchPrice among the prices of the largest execution.
  unfoldable pub choose_price : DepthBook → ℤ → SdkDec → List ℕ → SdkDec
  choose_price book precision ref_price indexes1 =
      let (indexes2, imbalance) =
        exec_rule2 (buy_amount_sum book) (sell_amount_sum book) indexes1 in
      if length indexes1 == 1
      then price_at book (first_index indexes1)
      else if length indexes2 == 1
      then price_at book (first_index indexes2)
      else exec_rule3 book (first_index indexes1) ref_price precision indexes2 imbalance

  -- periodicAuctionMatchPrice: the price and the volume.
  unfoldable pub match_price : DepthBook → ℤ → SdkDec → SdkDec × SdkDec
  match_price book precision ref_price =
      let (max_execution, execution) = exec_rule0 (buy_amount_sum book) (sell_amount_sum book) in
      if length book == 0
      then (pos 0, pos 0)
      else if eqb_ℤ max_execution (pos 0)
      then (ref_price, max_execution)
      else (
        choose_price book precision ref_price (exec_rule1 max_execution execution),
        max_execution,
      )
