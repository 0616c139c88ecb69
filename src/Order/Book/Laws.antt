-- ===== src/Order/Book/Laws.antt =====
-- The laws of the depth book: the order of its prices, the quantities at each price, and removal
-- after insertion.
use okexchain.Base.{
  ◌≡◌, refl, ℤ, pos, ◌+ℤ◌, ◌≤ℤ◌, ◌<ℤ◌, leb_ℤ, eqb_ℤ, Bool, true, false, [], ◌∷◌, arith, ap,
  if◌then◌else◌, Bool-cases, inl, inr, +ℤ_zero, zero_+ℤ, -ℤ_self, +ℤ_cancel, All, ◌&&◌, not,
}
use okexchain.Order.Types.{Order, Side, is_buy}
use okexchain.Order.Book.{
  DepthBook, DepthBookItem, new_item, join_item, insert_order, remove_order, is_empty_item,
}
use okexchain.Order.Book.Sorted.{Below, IsSorted, Below-mono}
use okexchain.Order.Book.Insert.{scan_insert, insert_order-scan}
use okexchain.Order.Book.Remove.{scan_remove, leave_item, remove_order-scan}

scan_insert-Below :
    (p : ℤ) (order : Order) (book : DepthBook)
    → order.price <ℤ p
    → Below p book
    → Below p (scan_insert order book)
unfolding scan_insert
scan_insert-Below p order [] h b = ground arith
scan_insert-Below p order (x ∷ xs) h b = ground (arith, scan_insert-Below p order xs h b.1)

scan_insert-IsSorted :
    (order : Order) (book : DepthBook) → IsSorted book → IsSorted (scan_insert order book)
unfolding scan_insert
scan_insert-IsSorted order [] s = ground arith
scan_insert-IsSorted order (x ∷ xs) s = ground (
  arith,
  scan_insert-IsSorted order xs s.1,
  scan_insert-Below x.price order xs,
  Below-mono x.price order.price xs,
)

scan_remove-Below :
    (p : ℤ) (order : Order) (book : DepthBook) → Below p book → Below p (scan_remove order book)
unfolding scan_remove
scan_remove-Below p order [] b = tt
scan_remove-Below p order (x ∷ xs) b = ground (arith, scan_remove-Below p order xs b.1)

scan_remove-IsSorted :
    (order : Order) (book : DepthBook) → IsSorted book → IsSorted (scan_remove order book)
unfolding scan_remove
scan_remove-IsSorted order [] s = tt
scan_remove-IsSorted order (x ∷ xs) s =
    ground (arith, scan_remove-IsSorted order xs s.1, scan_remove-Below x.price order xs s.0)

-- Inserting or removing an order keeps the prices of the book falling, each once.
pub update-IsSorted :
    (order : Order) (book : DepthBook)
    → IsSorted book
    → IsSorted (insert_order order book) × IsSorted (remove_order order book)
update-IsSorted order book s = (
  rw (insert_order-scan order book s) (scan_insert-IsSorted order book s),
  rw (remove_order-scan order book s) (scan_remove-IsSorted order book s),
)

abbrev pub quantity : Side → DepthBookItem → ℤ
quantity side item = if is_buy side then item.buy_quantity else item.sell_quantity

-- What is bid, or offered, at price `p`.
unfoldable pub quantity_at : Side → ℤ → DepthBook → ℤ
quantity_at side p [] = pos 0
quantity_at side p (x ∷ xs) = if eqb_ℤ x.price p then quantity side x else quantity_at side p xs

abbrev pub same_side : Side → Side → Bool
same_side side other = if is_buy side then is_buy other else not (is_buy other)

-- What `order` brings to `side` at price `p`.
abbrev pub share : Side → ℤ → Order → ℤ
share side p order =
    if eqb_ℤ order.price p && same_side side order.side then order.remain_quantity else pos 0

pub quantity_at-Below :
    (side : Side) (p q : ℤ) (book : DepthBook)
    → q ≤ℤ p
    → Below q book
    → quantity_at side p book ≡ pos 0
unfolding quantity_at
quantity_at-Below side p q [] h b = refl
quantity_at-Below side p q (x ∷ xs) h b = ground (arith, quantity_at-Below side p q xs h b.1)

-- One item, by the test that the scan makes on its price.
quantity_at-here :
    (side : Side) (p : ℤ) (order : Order) (x : DepthBookItem) (xs : DepthBook)
    → Below x.price xs
    → leb_ℤ x.price order.price ≡ true
    → quantity_at side p
        (if eqb_ℤ order.price x.price then join_item order x ∷ xs else new_item order ∷ x ∷ xs)
      ≡ quantity_at side p (x ∷ xs) +ℤ share side p order
unfolding quantity_at
quantity_at-here side p order x xs b h = elim (Bool-cases (eqb_ℤ order.price x.price)) [
  | inl e ↦ rw e (
      ground
        (arith, +ℤ_zero x.buy_quantity, +ℤ_zero x.sell_quantity, +ℤ_zero (quantity_at side p xs)))
  | inr e ↦ rw e (
      ground (
        arith,
        quantity_at-Below side p x.price xs,
        +ℤ_zero x.buy_quantity,
        +ℤ_zero x.sell_quantity,
        +ℤ_zero (quantity_at side p xs),
        zero_+ℤ (share side p order),
      ))
]

quantity_at-scan_insert :
    (side : Side) (p : ℤ) (order : Order) (book : DepthBook)
    → IsSorted book
    → quantity_at side p (scan_insert order book) ≡ quantity_at side p book +ℤ share side p order
unfolding scan_insert quantity_at
quantity_at-scan_insert side p order [] s = ground (arith, zero_+ℤ (share side p order))
quantity_at-scan_insert side p order (x ∷ xs) s = elim (Bool-cases (leb_ℤ x.price order.price)) [
  | inl here ↦ rw here (quantity_at-here side p order x xs s.0 here)
  | inr later ↦ rw later (
      ground (
        arith,
        quantity_at-scan_insert side p order xs s.1,
        +ℤ_zero x.buy_quantity,
        +ℤ_zero x.sell_quantity,
      ))
]

-- Placing an order into a sorted book adds its remaining quantity to its own side at its own price, and changes the
-- quantity of no other side and no other price.
pub quantity_at-insert_order :
    (side : Side) (p : ℤ) (order : Order) (book : DepthBook)
    → IsSorted book
    → quantity_at side p (insert_order order book) ≡ quantity_at side p book +ℤ share side p order
quantity_at-insert_order side p order book s =
    rw (insert_order-scan order book s) (quantity_at-scan_insert side p order book s)

leave-new : (order : Order) → is_empty_item (leave_item order (new_item order)) ≡ true
leave-new order = ground (arith, -ℤ_self order.remain_quantity)

leave-join : (order : Order) (x : DepthBookItem) → leave_item order (join_item order x) ≡ x
leave-join order x = ground (
  arith,
  +ℤ_cancel x.buy_quantity order.remain_quantity,
  +ℤ_cancel x.sell_quantity order.remain_quantity,
)

eqb_ℤ-refl : (a : ℤ) → eqb_ℤ a a ≡ true
eqb_ℤ-refl a = ground arith

scan_remove-here :
    (order : Order) (x : DepthBookItem) (xs : DepthBook)
    → is_empty_item x ≡ false
    → leb_ℤ x.price order.price ≡ true
    → scan_remove order
        (if eqb_ℤ order.price x.price then join_item order x ∷ xs else new_item order ∷ x ∷ xs)
      ≡ x ∷ xs
unfolding scan_remove
scan_remove-here order x xs k h = elim (Bool-cases (eqb_ℤ order.price x.price)) [
  | inl e ↦ rw e (ground (arith, leave-join order x))
  | inr e ↦ rw e (ground (arith, leave-new order))
]

scan_remove-scan_insert :
    (order : Order) (book : DepthBook)
    → All (λ x. is_empty_item x ≡ false) book
    → scan_remove order (scan_insert order book) ≡ book
unfolding scan_insert scan_remove
scan_remove-scan_insert order [] h = ground (arith, leave-new order)
scan_remove-scan_insert order (x ∷ xs) h = elim (Bool-cases (leb_ℤ x.price order.price)) [
  | inl here ↦ rw here (scan_remove-here order x xs h.0 here)
  | inr later ↦ rw later (rw later (ap (◌∷◌ x) (scan_remove-scan_insert order xs h.1)))
]

-- Removing an order that has just been placed into a sorted book gives the book back, whether it
-- opened a price or joined one, provided that no item of the book was empty.
pub remove_order-insert_order :
    (order : Order) (book : DepthBook)
    → IsSorted book
    → All (λ x. is_empty_item x ≡ false) book
    → remove_order order (insert_order order book) ≡ book
remove_order-insert_order order book s h =
    rw (remove_order-scan order _ (update-IsSorted order book s).0, insert_order-scan order book s)
      (scan_remove-scan_insert order book h)
