-- ===== src/Order/Cache.antt =====
-- x/order/keeper/disk_cache.go: the depth books and the queues of order ids that a block works on. A
-- key of FormatOrderIDsKey is its product, price and side.
pub mod Views
pub mod Open
pub mod Refines
pub mod Runs
use Prim.Native.String.{String}
use text.Mathlib.Text.{◌==◌ as string_eq}
use okexchain.Base.{
  ℤ, pos, ◌+ℤ◌, ◌-ℤ◌, eqb_ℤ, Bool, true, false, ◌&&◌, List, [], ◌∷◌, ◌++◌, Option, none, some,
  if◌then◌else◌,
}
use okexchain.Sdk.{SdkDec}
use okexchain.Order.Types.{Order, Side}
use okexchain.Order.Book.{DepthBook, insert_order, remove_order}
use okexchain.Order.Book.Laws.{same_side}

-- DiskCache, with the parts of DepthBookMap and OrderIDsMap
pub record DiskCache : Type 0 where
  pub depth_books : String → Option DepthBook
  pub updated_books : String → Bool
  pub new_books : String → Bool
  pub order_ids : String → SdkDec → Side → Option (List String)
  pub updated_order_ids : String → SdkDec → Side → Bool
  pub prices : String → Option SdkDec
  pub store_order_num : ℤ
  pub open_num : ℤ
  pub closed_order_ids : List String

-- newDiskCache
abbrev pub new_disk_cache : DiskCache
new_disk_cache = record {
  depth_books = λ product. none;
  updated_books = λ product. false;
  new_books = λ product. false;
  order_ids = λ product price side. none;
  updated_order_ids = λ product price side. false;
  prices = λ product. none;
  store_order_num = pos 0;
  open_num = pos 0;
  closed_order_ids = [];
}

-- reset
abbrev pub reset : DiskCache → DiskCache
reset cache = record cache {
  closed_order_ids = [];
  updated_order_ids = λ product price side. false;
  updated_books = λ product. false;
  new_books = λ product. false;
}

abbrev pub write {ℓ} : {A : Type ℓ} → (String → A) → String → A → String → A
write f key value k = if string_eq key k then value else f k

abbrev pub is_key : String → SdkDec → Side → String → SdkDec → Side → Bool
is_key product price side p q r = string_eq product p && eqb_ℤ price q && same_side side r

abbrev pub write_key {ℓ} :
    {A : Type ℓ}
    → (String → SdkDec → Side → A)
    → String
    → SdkDec
    → Side
    → A
    → String
    → SdkDec
    → Side
    → A
write_key f product price side value p q r =
    if is_key product price side p q r then value else f p q r

-- setLastPrice and getLastPrice
abbrev pub set_last_price : String → SdkDec → DiskCache → DiskCache
set_last_price product price cache = record cache {
  prices = write cache.prices product (some price);
}

abbrev pub get_last_price : String → DiskCache → SdkDec
get_last_price product cache = elim (cache.prices product) [ none ↦ pos 0 | some price ↦ price ]

-- What a map holds for a list of ids: an empty list is deleted.
abbrev pub kept_ids : List String → Option (List String)
kept_ids [] = none
kept_ids (id ∷ ids) = some (id ∷ ids)

-- setOrderIDs
unfoldable pub set_order_ids : String → SdkDec → Side → List String → DiskCache → DiskCache
set_order_ids product price side ids cache = record cache {
  order_ids = write_key cache.order_ids product price side (kept_ids ids);
  updated_order_ids = write_key cache.updated_order_ids product price side true;
}

abbrev pub kept_book : DepthBook → Option DepthBook
kept_book [] = none
kept_book (item ∷ items) = some (item ∷ items)

-- setDepthBook
unfoldable pub set_depth_book : String → DepthBook → DiskCache → DiskCache
set_depth_book product book cache = record cache {
  depth_books = write cache.depth_books product (kept_book book);
  updated_books = write cache.updated_books product true;
}

abbrev pub or_empty {ℓ} : {A : Type ℓ} → Option (List A) → List A
or_empty none = []
or_empty (some xs) = xs

-- insertOrder
unfoldable pub cache_insert : Order → DiskCache → DiskCache
cache_insert order cache =
    let book = insert_order order (or_empty (cache.depth_books order.product)) in
    let ids = or_empty (cache.order_ids order.product order.price order.side) in
    record cache {
      depth_books = write cache.depth_books order.product (some book);
      updated_books = write cache.updated_books order.product true;
      new_books = write cache.new_books order.product true;
      order_ids =
          write_key cache.order_ids order.product order.price order.side
            (some (ids ++ order.order_id ∷ []));
      updated_order_ids =
          write_key cache.updated_order_ids order.product order.price order.side true;
      open_num = cache.open_num +ℤ pos 1;
      store_order_num = cache.store_order_num +ℤ pos 1;
    }

-- closeOrder
abbrev pub close_order : String → DiskCache → DiskCache
close_order id cache = record cache {
  closed_order_ids = cache.closed_order_ids ++ id ∷ [];
  open_num = cache.open_num -ℤ pos 1;
}

-- The loop of removeOrder: the ids without the first that is `id`; `none` where there is none.
unfoldable pub without_id : String → List String → Option (List String)
without_id id [] = none
without_id id (x ∷ ids) =
    let rest = without_id id ids in
    if string_eq x id then some ids else elim rest [ none ↦ none | some left ↦ some (x ∷ left) ]

-- The first half of removeOrder, with the book that it has found.
abbrev pub leave_book : Order → Option DepthBook → DiskCache → DiskCache
leave_book order none cache = cache
leave_book order (some book) cache = set_depth_book order.product (remove_order order book) cache

-- The second half of removeOrder, with the ids that are left.
abbrev pub leave_queue : Order → Option (List String) → DiskCache → DiskCache
leave_queue order none cache = cache
leave_queue order (some ids) cache = set_order_ids order.product order.price order.side ids cache

-- removeOrder
unfoldable pub cache_remove : Order → DiskCache → DiskCache
cache_remove order cache =
    let cache1 = leave_book order (cache.depth_books order.product) cache in
    let ids = or_empty (cache1.order_ids order.product order.price order.side) in
    close_order order.order_id (leave_queue order (without_id order.order_id ids) cache1)
