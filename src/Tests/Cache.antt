-- ===== src/Tests/Cache.antt =====
-- A cache into which two orders are placed; the first is cancelled.
use Prim.Native.String.{String}
use okexchain.Base.{refl, pos, [], ◌∷◌, arith}
use okexchain.Order.Types.{Order, buy, open_order, cancelled}
use okexchain.Order.Cache.{DiskCache, new_disk_cache, cache_insert, cache_remove}
use okexchain.Order.Cache.Open.{known}
use okexchain.Order.Cache.Refines.{Refines, Run, begin, insert, remove}
use okexchain.Order.Cache.Runs.{run-Refines}

abbrev placed : String → Order
placed id = record {
  order_id = id;
  sender = "ann";
  product = "btc_okt";
  side = buy;
  price = pos 5;
  quantity = pos 3;
  status = open_order;
  filled_avg_price = pos 0;
  remain_quantity = pos 3;
  remain_locked = pos 15;
}

abbrev two : DiskCache
two = cache_insert (placed "two") (cache_insert (placed "one") new_disk_cache)

run : Run two (placed "one" ∷ placed "two" ∷ [])
unfolding known
run = insert (placed "two") (insert (placed "one") begin (omega arith) refl) (omega arith) refl

abbrev one_left : DiskCache
one_left = cache_remove (record (placed "one") { status = cancelled; remain_locked = pos 0 }) two

run-Refines_example : Refines one_left (placed "two" ∷ [])
run-Refines_example =
    run-Refines one_left (placed "two" ∷ [])
      (remove [] (placed "two" ∷ []) (placed "one") cancelled (pos 0) run)
