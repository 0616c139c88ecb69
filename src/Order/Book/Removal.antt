-- ===== src/Order/Book/Removal.antt =====
-- What RemoveOrder takes off the quantities of a depth book.
use okexchain.Base.{
  ◌≡◌, ℤ, pos, ◌-ℤ◌, ◌<ℤ◌, leb_ℤ, eqb_ℤ, true, false, [], ◌∷◌, arith, Bool-cases, inl, inr, -ℤ_zero,
}
use okexchain.Order.Types.{Order, Side}
use okexchain.Order.Book.{DepthBook, DepthBookItem, remove_order}
use okexchain.Order.Book.Sorted.{Below, IsSorted}
use okexchain.Order.Book.Remove.{scan_remove, leave_item, keep_item, remove_order-scan}
use okexchain.Order.Book.Laws.{quantity_at, quantity_at-Below, share}

-- The item of the order's own price.
quantity_at-keep_item :
    (side : Side) (p : ℤ) (order : Order) (x : DepthBookItem) (xs : DepthBook)
    → Below x.price xs
    → eqb_ℤ x.price order.price ≡ true
    → quantity_at side p (keep_item (leave_item order x) xs)
      ≡ quantity_at side p (x ∷ xs) -ℤ share side p order
unfolding quantity_at
quantity_at-keep_item side p order x xs b e = ground (
  arith,
  quantity_at-Below side p x.price xs,
  -ℤ_zero x.buy_quantity,
  -ℤ_zero x.sell_quantity,
  -ℤ_zero (quantity_at side p xs),
)

quantity_at-scan_remove :
    (side : Side) (p : ℤ) (order : Order) (book : DepthBook)
    → IsSorted book
    → pos 0 <ℤ quantity_at order.side order.price book
    → quantity_at side p (scan_remove order book) ≡ quantity_at side p book -ℤ share side p order
unfolding scan_remove quantity_at
quantity_at-scan_remove side p order [] s h = absurd (omega arith)
quantity_at-scan_remove side p order (x ∷ xs) s h = elim (Bool-cases (leb_ℤ x.price order.price)) [
  | inl here ↦ elim (Bool-cases (eqb_ℤ x.price order.price)) [
    | inl e ↦ rw (here, e) (quantity_at-keep_item side p order x xs s.0 e)
    | inr e ↦
        let zero = quantity_at-Below order.side order.price x.price xs in
        absurd (ground (arith, zero, s.0, rw e at h))
  ]
  | inr later ↦
      let ne : eqb_ℤ x.price order.price ≡ false = ground arith in
      let ih = quantity_at-scan_remove side p order xs s.1 (rw ne at h) in
      rw later (ground (arith, ih, -ℤ_zero x.buy_quantity, -ℤ_zero x.sell_quantity))
]

-- RemoveOrder takes the remaining quantity of an order off its own side at its own price, and changes
-- nothing else, if the book is sorted and has some quantity there.
pub quantity_at-remove_order :
    (side : Side) (p : ℤ) (order : Order) (book : DepthBook)
    → IsSorted book
    → pos 0 <ℤ quantity_at order.side order.price book
    → quantity_at side p (remove_order order book) ≡ quantity_at side p book -ℤ share side p order
quantity_at-remove_order side p order book s h =
    rw (remove_order-scan order book s) (quantity_at-scan_remove side p order book s h)
