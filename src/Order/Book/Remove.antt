-- ===== src/Order/Book/Remove.antt =====
-- RemoveOrder on a sorted book, as a scan from the head.
use okexchain.Base.{
  ℕ, suc, ◌≡◌, refl, leb_ℤ, eqb_ℤ, true, ◌&&◌, ltb, [], ◌∷◌, arith, ap, ◌∙◌, if◌then◌else◌, length,
  get_or, Bool-cases, inl, inr,
}
use okexchain.Order.Types.{Order, is_buy}
use okexchain.Order.Book.{
  DepthBook, DepthBookItem, zero_item, is_empty_item, sub_buy, sub_sell, sub, remove_if_empty,
  remove_order,
}
use okexchain.Order.Book.Sorted.{IsSorted, above, price_index-above}

-- What an order leaves of its item.
abbrev pub leave_item : Order → DepthBookItem → DepthBookItem
leave_item order item =
    if is_buy order.side
    then sub_buy order.remain_quantity item
    else sub_sell order.remain_quantity item

-- An item that has become empty goes.
abbrev pub keep_item : DepthBookItem → DepthBook → DepthBook
keep_item item rest = if is_empty_item item then rest else item ∷ rest

unfoldable pub scan_remove : Order → DepthBook → DepthBook
scan_remove order [] = []
scan_remove order (x ∷ xs) =
    if leb_ℤ x.price order.price
    then (if eqb_ℤ x.price order.price then keep_item (leave_item order x) xs else x ∷ xs)
    else x ∷ scan_remove order xs

-- RemoveOrder where its search has returned `index`.
remove_at : ℕ → Order → DepthBook → DepthBook
unfolding sub remove_if_empty
remove_at index order book =
    if ltb index (length book) && eqb_ℤ (get_or book index zero_item).price order.price
    then (remove_if_empty index (sub index order.remain_quantity order.side book)).1
    else book

remove_at-cons :
    (i : ℕ) (order : Order) (x : DepthBookItem) (xs : DepthBook)
    → remove_at (suc i) order (x ∷ xs) ≡ x ∷ remove_at i order xs
unfolding remove_at
remove_at-cons i order x xs = ground arith

remove_at-zero :
    (order : Order) (x : DepthBookItem) (xs : DepthBook)
    → leb_ℤ x.price order.price ≡ true
    → remove_at 0 order (x ∷ xs) ≡ scan_remove order (x ∷ xs)
unfolding remove_at scan_remove
remove_at-zero order x xs h = ground arith

remove_at-above :
    (order : Order) (book : DepthBook)
    → remove_at (above order.price book) order book ≡ scan_remove order book
unfolding scan_remove
remove_at-above order [] = unfold remove_at in refl
remove_at-above order (x ∷ xs) = elim (Bool-cases (leb_ℤ x.price order.price)) [
  | inl here ↦ rw here (rw here at (remove_at-zero order x xs here))
  | inr later ↦
      rw later
        (remove_at-cons (above order.price xs) order x xs ∙ ap (◌∷◌ x) (remove_at-above order xs))
]

-- On a sorted book RemoveOrder, with its binary search and its slices, is the removal by a scan from the head.
pub remove_order-scan :
    (order : Order) (book : DepthBook)
    → IsSorted book
    → remove_order order book ≡ scan_remove order book
unfolding remove_order remove_at
remove_order-scan order book s =
    rw (price_index-above order.price book s) (remove_at-above order book)
