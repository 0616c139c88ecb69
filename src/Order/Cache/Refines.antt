-- ===== src/Order/Cache/Refines.antt =====
-- The disk cache against the list of open orders.
use Prim.Native.String.{String}
use text.Mathlib.Text.{◌==◌ as string_eq}
use text.Mathlib.TextEquality.{eq_iff}
use okexchain.Base.{
  ◌≡◌, refl, sym, ap, ◌∙◌, subst, ℤ, pos, ◌+ℤ◌, ◌-ℤ◌, ◌<ℤ◌, eqb_ℤ, int_laws, eq_of_parts, +ℤ_zero,
  -ℤ_zero, Bool, true, false, ◌&&◌, Bool-cases, inl, inr, List, [], ◌∷◌, ◌++◌, arith,
}
use okexchain.Sdk.{SdkDec}
use okexchain.Order.Types.{Order, OrderStatus, Side, buy, sell}
use okexchain.Order.Book.Sorted.{IsSorted}
use okexchain.Order.Book.Laws.{
  same_side, share, quantity_at, quantity_at-insert_order, update-IsSorted,
}
use okexchain.Order.Book.Removal.{quantity_at-remove_order}
use okexchain.Order.Cache.{DiskCache, new_disk_cache, reset, is_key, cache_insert, cache_remove}
use okexchain.Order.Cache.Views.{
  book_of, ids_of, book_of-cache_insert, ids_of-cache_insert, book_of-cache_remove,
}
use okexchain.Order.Cache.Open.{part, total, ids_at, known, Fresh, total-append, ids_at-append}

-- The cache shows the open orders: books are sorted, each quantity is the sum of what the orders want,
-- each queue has their ids in order.
abbrev pub Refines : DiskCache → List Order → Type 0
Refines cache orders =
    Fresh orders
    × ((product : String) → IsSorted (book_of product cache))
    × ((product : String) (side : Side) (price : SdkDec)
        → quantity_at side price (book_of product cache) ≡ total product side price orders)
    × ((product : String) (price : SdkDec) (side : Side)
        → ids_of product price side cache ≡ ids_at product price side orders)

-- The runs of a cache, with the orders that are open after them. An order that leaves may have a new
-- status and no locked coins.
pub data Run : DiskCache → List Order → Type 0 where
  begin : Run new_disk_cache []
  new_block :
      {cache : DiskCache} {orders : List Order} → Run cache orders → Run (reset cache) orders
  insert :
      {cache : DiskCache} {orders : List Order} (order : Order)
      → Run cache orders
      → pos 0 <ℤ order.remain_quantity
      → known order.order_id orders ≡ false
      → Run (cache_insert order cache) (orders ++ order ∷ [])
  remove :
      {cache : DiskCache} (before after : List Order) (order : Order) (status : OrderStatus)
      (locked : SdkDec)
      → Run cache (before ++ order ∷ after)
      → Run
          (cache_remove (record order { status = status; remain_locked = locked }) cache)
          (before ++ after)

append-nil : {A : Type 0} (xs : List A) → xs ++ [] ≡ xs
append-nil [] = refl
append-nil (x ∷ xs) = ap (◌∷◌ x) (append-nil xs)

same_text : {a b : String} → string_eq a b ≡ true → a ≡ b
same_text {a} {b} h = (eq_iff a b).0 h

and_parts : (a b c : Bool) → (a && b && c) ≡ true → (a ≡ true) × (b ≡ true) × (c ≡ true)
and_parts true true c h = (refl, refl, h)
and_parts true false c h = cc
and_parts false b c h = cc

same_side-eq : (a b : Side) → same_side a b ≡ true → a ≡ b
same_side-eq buy buy h = refl
same_side-eq sell sell h = refl
same_side-eq buy sell h = cc
same_side-eq sell buy h = cc

price_eq : (a b : ℤ) → eqb_ℤ a b ≡ true → a ≡ b
price_eq a b h = ground (arith, eq_of_parts a b)

-- A key is its product, price and side.
pub key_eq :
    {A : Type 0} (f : String → SdkDec → Side → A) (product p : String) (price q : SdkDec)
    (side r : Side)
    → is_key product price side p q r ≡ true
    → f product price side ≡ f p q r
key_eq f product p price q side r h =
    let (e1, e2, e3) = and_parts (string_eq product p) (eqb_ℤ price q) (same_side side r) h in
    let e = same_text e1 in
    let g = price_eq price q e2 in let k = same_side-eq side r e3 in λ i. f (e i) (g i) (k i)

pub insert-IsSorted :
    (order : Order) (cache : DiskCache)
    → ((product : String) → IsSorted (book_of product cache))
    → (product : String) → IsSorted (book_of product (cache_insert order cache))
insert-IsSorted order cache s product =
    subst IsSorted (sym (book_of-cache_insert order product cache))
      (elim (Bool-cases (string_eq order.product product)) [
        | inl t ↦ rw t (update-IsSorted order (book_of order.product cache) (s order.product)).0
        | inr t ↦ rw t (s product)
      ])

pub remove-IsSorted :
    (order : Order) (cache : DiskCache)
    → ((product : String) → IsSorted (book_of product cache))
    → (product : String) → IsSorted (book_of product (cache_remove order cache))
remove-IsSorted order cache s product =
    subst IsSorted (sym (book_of-cache_remove order product cache))
      (elim (Bool-cases (string_eq order.product product)) [
        | inl t ↦ rw t (update-IsSorted order (book_of order.product cache) (s order.product)).1
        | inr t ↦ rw t (s product)
      ])

pub insert-quantity :
    (order : Order) (cache : DiskCache) (orders : List Order)
    → Refines cache orders
    → (product : String) (side : Side) (price : SdkDec)
    → quantity_at side price (book_of product (cache_insert order cache))
      ≡ total product side price orders +ℤ part product side price order
insert-quantity order cache orders (_, s, q, _) product side price =
    ap (quantity_at side price) (book_of-cache_insert order product cache)
    ∙ elim (Bool-cases (string_eq order.product product)) [
      | inl t ↦ rw t (
          quantity_at-insert_order side price order (book_of order.product cache) (s order.product)
          ∙ ap (◌+ℤ share side price order)
              (q order.product side price ∙ ap (λ p. total p side price orders) (same_text t)))
      | inr t ↦ rw t (q product side price ∙ sym (+ℤ_zero _))
    ]

pub remove-quantity :
    (order : Order) (cache : DiskCache) (orders : List Order)
    → Refines cache orders
    → pos 0 <ℤ total order.product order.side order.price orders
    → (product : String) (side : Side) (price : SdkDec)
    → quantity_at side price (book_of product (cache_remove order cache))
      ≡ total product side price orders -ℤ part product side price order
remove-quantity order cache orders (_, s, q, _) some_left product side price =
    ap (quantity_at side price) (book_of-cache_remove order product cache)
    ∙ elim (Bool-cases (string_eq order.product product)) [
      | inl t ↦ rw t (
          quantity_at-remove_order side price order (book_of order.product cache) (s order.product)
            (subst (λ n. pos 0 <ℤ n) (sym (q order.product order.side order.price)) some_left)
          ∙ ap (◌-ℤ share side price order)
              (q order.product side price ∙ ap (λ p. total p side price orders) (same_text t)))
      | inr t ↦ rw t (q product side price ∙ sym (-ℤ_zero _))
    ]

pub total-without :
    (product : String) (side : Side) (price : SdkDec) (before after : List Order) (order : Order)
    → total product side price (before ++ order ∷ after) -ℤ part product side price order
      ≡ total product side price (before ++ after)
unfolding total
total-without product side price before after order =
    ap (λ n. n -ℤ part product side price order)
      (total-append product side price before (order ∷ after))
    ∙ cancel _ (part product side price order) _
    ∙ sym (total-append product side price before after)
  where
    cancel : (a b c : ℤ) → a +ℤ (b +ℤ c) -ℤ b ≡ a +ℤ c
    cancel a b c = omega int_laws

pub insert-ids :
    (order : Order) (cache : DiskCache) (orders : List Order)
    → Refines cache orders
    → (product : String) (price : SdkDec) (side : Side)
    → ids_of product price side (cache_insert order cache)
      ≡ ids_at product price side (orders ++ order ∷ [])
unfolding ids_at
insert-ids order cache orders (_, _, _, ids) product price side =
    ids_of-cache_insert order product price side cache
    ∙ elim (Bool-cases (is_key order.product order.price order.side product price side)) [
      | inl t ↦ rw t (
          ap (◌++ (order.order_id ∷ [])) (
            ids order.product order.price order.side
            ∙ key_eq (λ p q r. ids_at p q r orders) order.product product order.price price
                order.side side t)
          ∙ sym (
              ids_at-append product price side orders (order ∷ [])
              ∙ ap (◌++◌ (ids_at product price side orders)) (rw t refl)))
      | inr t ↦ rw t (
          ids product price side
          ∙ sym (
              ids_at-append product price side orders (order ∷ [])
              ∙ rw t (append-nil (ids_at product price side orders))))
    ]
