-- ===== src/Order/Book/Insert.antt =====
-- What InsertOrder and RemoveOrder do to a sorted book.
use okexchain.Base.{
  ℕ, suc, ◌-◌, ◌≡◌, refl, ltb_ℤ, leb_ℤ, eqb_ℤ, true, false, [], ◌∷◌, ◌++◌, arith, if◌then◌else◌,
  ◌==◌, length, get_or, set, take, drop, Bool-cases, inl, inr, ap, ◌∙◌,
}
use okexchain.Order.Types.{Order}
use okexchain.Order.Book.{DepthBook, DepthBookItem, zero_item, new_item, join_item, insert_order}
use okexchain.Order.Book.Sorted.{IsSorted, above, price-le, price_index-above}

-- Insertion by a scan from the head.
unfoldable pub scan_insert : Order → DepthBook → DepthBook
scan_insert order [] = new_item order ∷ []
scan_insert order (x ∷ xs) =
    if leb_ℤ x.price order.price
    then (if eqb_ℤ order.price x.price then join_item order x ∷ xs else new_item order ∷ x ∷ xs)
    else x ∷ scan_insert order xs

-- InsertOrder where its search has returned `index`.
insert_at : ℕ → Order → DepthBook → DepthBook
insert_at index order book =
    let item = get_or book index zero_item in
    let last = get_or book (length book - 1) zero_item in
    if length book == 0
    then new_item order ∷ []
    else if ltb_ℤ order.price last.price
    then book ++ new_item order ∷ []
    else if eqb_ℤ order.price item.price
    then set book index (join_item order item)
    else take index book ++ new_item order ∷ drop index book

insert_at-cons :
    (i : ℕ) (order : Order) (x y : DepthBookItem) (ys : DepthBook)
    → insert_at (suc i) order (x ∷ y ∷ ys) ≡ x ∷ insert_at i order (y ∷ ys)
unfolding insert_at
insert_at-cons i order x y ys = ground arith

insert_at-zero :
    (order : Order) (x : DepthBookItem) (xs : DepthBook)
    → leb_ℤ x.price order.price ≡ true
    → IsSorted (x ∷ xs)
    → insert_at 0 order (x ∷ xs) ≡ scan_insert order (x ∷ xs)
unfolding insert_at scan_insert
insert_at-zero order x xs h s =
    ground (arith, price-le (x ∷ xs) 0 (length xs) s (omega arith) (omega arith))

insert_at-last :
    (order : Order) (x : DepthBookItem)
    → leb_ℤ x.price order.price ≡ false
    → insert_at 1 order (x ∷ []) ≡ x ∷ new_item order ∷ []
unfolding insert_at
insert_at-last order x h = ground arith

insert_at-above :
    (order : Order) (book : DepthBook)
    → IsSorted book
    → insert_at (above order.price book) order book ≡ scan_insert order book
unfolding scan_insert
insert_at-above order [] s = unfold insert_at in refl
insert_at-above order (x ∷ []) s = elim (Bool-cases (leb_ℤ x.price order.price)) [
  | inl here ↦ rw here (rw here at (insert_at-zero order x [] here s))
  | inr later ↦ rw later (insert_at-last order x later)
]
insert_at-above order (x ∷ y ∷ ys) s = elim (Bool-cases (leb_ℤ x.price order.price)) [
  | inl here ↦ rw here (rw here at (insert_at-zero order x (y ∷ ys) here s))
  | inr later ↦ rw later (
      insert_at-cons (above order.price (y ∷ ys)) order x y ys
      ∙ ap (◌∷◌ x) (insert_at-above order (y ∷ ys) s.1))
]

-- On a sorted book InsertOrder, with its binary search and its slices, is the insertion by a scan from the head.
pub insert_order-scan :
    (order : Order) (book : DepthBook)
    → IsSorted book
    → insert_order order book ≡ scan_insert order book
unfolding insert_order insert_at
insert_order-scan order book s =
    rw (price_index-above order.price book s) (insert_at-above order book s)
