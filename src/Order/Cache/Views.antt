-- ===== src/Order/Cache/Views.antt =====
-- The disk cache as two functions: the book of a product, and the ids of a key.
use Prim.Native.String.{String}
use text.Mathlib.Text.{◌==◌ as string_eq}
use text.Mathlib.TextEquality.{eq_iff}
use okexchain.Base.{
  ◌≡◌, refl, sym, ap, ◌∙◌, Bool-cases, inl, inr, List, [], ◌∷◌, ◌++◌, Option, none, some,
  if◌then◌else◌,
}
use okexchain.Sdk.{SdkDec}
use okexchain.Order.Types.{Order, Side}
use okexchain.Order.Book.{DepthBook, insert_order, remove_order}
use okexchain.Order.Book.Remove.{scan_remove, remove_order-scan}
use okexchain.Order.Cache.{
  DiskCache, is_key, kept_ids, kept_book, or_empty, set_order_ids, set_depth_book, cache_insert,
  cache_remove, without_id, leave_book, leave_queue,
}

abbrev pub book_of : String → DiskCache → DepthBook
book_of product cache = or_empty (cache.depth_books product)

abbrev pub ids_of : String → SdkDec → Side → DiskCache → List String
ids_of product price side cache = or_empty (cache.order_ids product price side)

kept_book-or_empty : (book : DepthBook) → or_empty (kept_book book) ≡ book
kept_book-or_empty [] = refl
kept_book-or_empty (x ∷ xs) = refl

kept_ids-or_empty : (ids : List String) → or_empty (kept_ids ids) ≡ ids
kept_ids-or_empty [] = refl
kept_ids-or_empty (x ∷ xs) = refl

remove_order-empty : (order : Order) → remove_order order [] ≡ []
remove_order-empty order = remove_order-scan order [] tt ∙ (unfold scan_remove in refl)

-- The ids of a queue once `id` has left it.
abbrev pub left_ids : String → List String → List String
left_ids id ids = elim (without_id id ids) [ none ↦ ids | some left ↦ left ]

pub book_of-cache_insert :
    (order : Order) (product : String) (cache : DiskCache)
    → book_of product (cache_insert order cache) ≡ (
        if string_eq order.product product
        then insert_order order (book_of order.product cache)
        else book_of product cache)
unfolding cache_insert
book_of-cache_insert order product cache = elim (Bool-cases (string_eq order.product product)) [
  | inl t ↦ rw t refl
  | inr t ↦ rw t refl
]

pub ids_of-cache_insert :
    (order : Order) (product : String) (price : SdkDec) (side : Side) (cache : DiskCache)
    → ids_of product price side (cache_insert order cache) ≡ (
        if is_key order.product order.price order.side product price side
        then ids_of order.product order.price order.side cache ++ order.order_id ∷ []
        else ids_of product price side cache)
unfolding cache_insert
ids_of-cache_insert order product price side cache =
    elim (Bool-cases (is_key order.product order.price order.side product price side)) [
      | inl t ↦ rw t refl
      | inr t ↦ rw t refl
    ]

leave_book-book_of :
    (order : Order) (product : String) (cache : DiskCache) (found : Option DepthBook)
    → cache.depth_books order.product ≡ found
    → book_of product (leave_book order found cache) ≡ (
        if string_eq order.product product
        then remove_order order (book_of order.product cache)
        else book_of product cache)
unfolding set_depth_book
leave_book-book_of order product cache none e =
    elim (Bool-cases (string_eq order.product product)) [
      | inl t ↦
          let same : order.product ≡ product = (eq_iff order.product product).0 t in
          rw t (
            ap or_empty (ap cache.depth_books (sym same) ∙ e)
            ∙ sym (remove_order-empty order)
            ∙ ap (λ o. remove_order order (or_empty o)) (sym e))
      | inr t ↦ rw t refl
    ]
leave_book-book_of order product cache (some book) e =
    elim (Bool-cases (string_eq order.product product)) [
      | inl t ↦ rw t (
          kept_book-or_empty (remove_order order book)
          ∙ ap (λ o. remove_order order (or_empty o)) (sym e))
      | inr t ↦ rw t refl
    ]

leave_book-order_ids :
    (order : Order) (found : Option DepthBook) (cache : DiskCache)
    → (leave_book order found cache).order_ids ≡ cache.order_ids
unfolding set_depth_book
leave_book-order_ids order none cache = refl
leave_book-order_ids order (some book) cache = refl

leave_queue-depth_books :
    (order : Order) (ids : Option (List String)) (cache : DiskCache)
    → (leave_queue order ids cache).depth_books ≡ cache.depth_books
unfolding set_order_ids
leave_queue-depth_books order none cache = refl
leave_queue-depth_books order (some ids) cache = refl

pub book_of-cache_remove :
    (order : Order) (product : String) (cache : DiskCache)
    → book_of product (cache_remove order cache) ≡ (
        if string_eq order.product product
        then remove_order order (book_of order.product cache)
        else book_of product cache)
unfolding cache_remove
book_of-cache_remove order product cache =
    let found = cache.depth_books order.product in
    ap (λ f. or_empty (f product)) (leave_queue-depth_books order _ (leave_book order found cache))
    ∙ leave_book-book_of order product cache found refl

-- A queue from which an order has gone.
pub ids_of-cache_remove :
    (order : Order) (product : String) (price : SdkDec) (side : Side) (cache : DiskCache)
    (left : List String)
    → without_id order.order_id (ids_of order.product order.price order.side cache) ≡ some left
    → ids_of product price side (cache_remove order cache) ≡ (
        if is_key order.product order.price order.side product price side
        then left
        else ids_of product price side cache)
unfolding cache_remove set_order_ids
ids_of-cache_remove order product price side cache left e =
    let found = cache.depth_books order.product in
    let cache1 = leave_book order found cache in
    let same = leave_book-order_ids order found cache in
    let own = order.order_id in
    let e1 : without_id own (ids_of order.product order.price order.side cache1) ≡ some left =
      ap (λ f. without_id own (or_empty (f order.product order.price order.side))) same ∙ e in
    ap (λ o. ids_of product price side (leave_queue order o cache1)) e1
    ∙ elim (Bool-cases (is_key order.product order.price order.side product price side)) [
      | inl t ↦ rw t (kept_ids-or_empty left)
      | inr t ↦ rw t (ap (λ f. or_empty (f product price side)) same)
    ]
