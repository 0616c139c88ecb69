-- ===== src/Order/Cache/Runs.antt =====
-- Every run of the disk cache.
use Prim.Native.String.{String}
use okexchain.Base.{
  ◌≡◌, refl, sym, ap, ◌∙◌, subst, pos, ◌+ℤ◌, ◌<ℤ◌, true, false, Bool-cases, inl, inr, List, [], ◌∷◌,
  ◌++◌, +ℤ_zero, string_eq_refl, arith,
}
use okexchain.Sdk.{SdkDec}
use okexchain.Order.Types.{Order, OrderStatus, Side}
use okexchain.Order.Book.{remove_order}
use okexchain.Order.Book.Laws.{quantity_at}
use okexchain.Order.Cache.{
  DiskCache, is_key, cache_insert, cache_remove, without_id, set_depth_book, set_order_ids,
}
use okexchain.Order.Cache.Views.{ids_of, ids_of-cache_remove}
use okexchain.Order.Cache.Open.{
  part, total, ids_at, known, total-append, total-pos, without_id-ids_at, Fresh-without,
  Fresh-append, ids_at-append,
}
use okexchain.Order.Cache.Refines.{
  Refines, Run, begin, new_block, insert, remove, insert-IsSorted, remove-IsSorted, insert-quantity,
  remove-quantity, insert-ids, total-without, key_eq,
}

is_key_self :
    (order : Order)
    → is_key order.product order.price order.side order.product order.price order.side ≡ true
is_key_self order = rw (string_eq_refl order.product) (ground arith)

-- RemoveOrder of the cache does not read the status or the locked coins.
cache_remove_quit :
    (order : Order) (status : OrderStatus) (locked : SdkDec) (cache : DiskCache)
    → cache_remove (record order { status = status; remain_locked = locked }) cache
      ≡ cache_remove order cache
unfolding cache_remove remove_order set_depth_book set_order_ids
cache_remove_quit order status locked cache = refl

remove-ids :
    (cache : DiskCache) (before after : List Order) (order : Order)
    → Refines cache (before ++ order ∷ after)
    → (product : String) (price : SdkDec) (side : Side)
    → ids_of product price side (cache_remove order cache)
      ≡ ids_at product price side (before ++ after)
unfolding ids_at
remove-ids cache before after order (fresh, _, _, ids) product price side =
    let orders = before ++ order ∷ after in
    let own : is_key order.product order.price order.side order.product order.price order.side
        ≡ true =
      is_key_self order in
    let left =
      without_id-ids_at order.product order.price order.side before after order fresh own in
    ids_of-cache_remove order product price side cache
      (ids_at order.product order.price order.side (before ++ after))
      (ap (without_id order.order_id) (ids order.product order.price order.side) ∙ left)
    ∙ elim (Bool-cases (is_key order.product order.price order.side product price side)) [
      | inl t ↦ rw t (
          key_eq (λ p q r. ids_at p q r (before ++ after)) order.product product order.price price
            order.side side t)
      | inr t ↦ rw t (
          ids product price side
          ∙ ids_at-append product price side before (order ∷ after)
          ∙ ap (◌++◌ (ids_at product price side before)) (rw t refl)
          ∙ sym (ids_at-append product price side before after))
    ]

insert-Refines :
    (cache : DiskCache) (orders : List Order) (order : Order)
    → Refines cache orders
    → pos 0 <ℤ order.remain_quantity
    → known order.order_id orders ≡ false
    → Refines (cache_insert order cache) (orders ++ order ∷ [])
unfolding total
insert-Refines cache orders order r wants new = (
  Fresh-append orders order r.0 wants new,
  insert-IsSorted order cache r.1,
  λ product side price.
      insert-quantity order cache orders r product side price
      ∙ sym (
          total-append product side price orders (order ∷ [])
          ∙ ap (◌+ℤ◌ (total product side price orders)) (+ℤ_zero (part product side price order))),
  insert-ids order cache orders r,
)

remove-Refines :
    (cache : DiskCache) (before after : List Order) (order : Order)
    → Refines cache (before ++ order ∷ after)
    → Refines (cache_remove order cache) (before ++ after)
remove-Refines cache before after order r = (
  Fresh-without before after order r.0,
  remove-IsSorted order cache r.1,
  λ product side price.
      remove-quantity order cache (before ++ order ∷ after) r (total-pos before after order r.0)
        product side price
      ∙ total-without product side price before after order,
  remove-ids cache before after order r,
)

-- However orders are inserted, removed and blocks begun, starting from an empty cache, where each
-- inserted order wants something and has an id that no open order has, and each removed order is
-- open: every depth book is sorted, its quantity at each price and side is the sum of what the open
-- orders want there, and every queue holds the ids of its open orders as they came.
pub run-Refines :
    (cache : DiskCache) (orders : List Order) → Run cache orders → Refines cache orders
unfolding total ids_at quantity_at
run-Refines cache orders begin =
    (tt, λ product. tt, λ product side price. refl, λ product price side. refl)
run-Refines cache orders (new_block run) = run-Refines _ orders run
run-Refines cache orders (insert {cache = c} {orders = os} order run wants new) =
    insert-Refines c os order (run-Refines c os run) wants new
run-Refines cache orders (remove {cache = c} before after order status locked run) =
    subst (λ x. Refines x (before ++ after)) (sym (cache_remove_quit order status locked c))
      (remove-Refines c before after order (run-Refines c (before ++ order ∷ after) run))
