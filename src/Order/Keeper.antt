-- ===== src/Order/Keeper.antt =====
-- x/order/keeper/order.go and fee.go: placing, cancelling and expiring an order, over the locks of
-- x/token, the stores of x/order and the depth books. The fee details and the ids of updated
-- orders that are kept for a mirror of the chain and the texts in an order's extra information are left out.
pub mod Booked
pub mod Fees
use Prim.Native.String.{String}
use text.Mathlib.Text.{◌==◌ as string_eq}
use okexchain.Base.{
  ◌≡◌, ℕ, ◌*◌, ℤ, pos, negsuc, ◌+ℤ◌, ◌-ℤ◌, ltb_ℤ, eqb_ℤ, suc, Bool, true, false, List, [], ◌∷◌,
  ◌++◌, Option, none, some, if◌then◌else◌, Result, ok, err, ◌>>=◌, or_fail, failing, put,
}
use okexchain.Sdk.{SdkDec, DecMath, Coin}
use okexchain.Sdk.Sets.{CoinSets, ModuleBank}
use okexchain.Token.{
  TokenError, LockCoinsType, quantity_lock, fee_lock, Locks, order_lock_coins, update_locked_coins,
  token_account,
}
use okexchain.Order.Types.{Order, is_buy, locked_token}
use okexchain.Order.Fill.{cancel, expire, unlock}
use okexchain.Order.Cache.{DiskCache, cache_insert, cache_remove}

-- Order with the fields for its fee
pub record KeptOrder : Type 0 where
  pub order : Order
  pub fee_per_block : Coin
  pub order_expire_blocks : ℤ

-- FeeTypeOrderCancel and FeeTypeOrderExpire; quitOrder does nothing for any other type.
pub data QuitType : Type 0 where
  order_cancel order_expire : QuitType

-- FormatOrderID prints a height and a number, and GetBlockHeightFromOrderID reads the height, both by
-- the formats of Go's fmt.
pub record Formats : Type 0 where
  pub format_order_id : ℤ → ℤ → String
  pub get_block_height_from_order_id : String → ℤ
  pub format_order_id-eq :
      (height num height' num' : ℤ)
      → format_order_id height num ≡ format_order_id height' num'
      → (height ≡ height') × (num ≡ num')

pub data OrderError : Type 0 where
  lock_failed : TokenError → OrderError
  panicked : OrderError

-- The error of a lock is passed on.
abbrev pub or_lock_failed {ℓ} : {A : Type ℓ} → Result TokenError A → Result OrderError A
or_lock_failed (err e) = err (lock_failed e)
or_lock_failed (ok locks) = ok locks

-- A write to a store under a height
abbrev pub write_height : (ℤ → ℤ) → ℤ → ℤ → ℤ → ℤ
write_height f height num h = if eqb_ℤ height h then num else f h

-- Cancel or Expire
abbrev pub closed_by : QuitType → Order → Order
closed_by order_cancel order = cancel order
closed_by order_expire order = expire order

abbrev pub more_cancelled : QuitType → ℤ
more_cancelled order_cancel = pos 1
more_cancelled order_expire = pos 0

abbrev pub more_expired : QuitType → ℤ
more_expired order_cancel = pos 0
more_expired order_expire = pos 1

abbrev pub with_id : String → KeptOrder → KeptOrder
with_id id kept = record kept { order = record kept.order { order_id = id } }

module _ {m : DecMath} (s : CoinSets m) (k : ModuleBank s) (fmt : Formats)
    (fee_collector : String) where
  open fmt use {format_order_id, get_block_height_from_order_id}

  pub record Exchange : Type 0 where
    pub locks : Locks s k
    pub cache : DiskCache
    pub orders : List (String × KeptOrder)
    pub block_order_num : ℤ → ℤ
    pub cancel_num : ℤ
    pub expire_num : ℤ

  -- sdk.NewDec
  abbrev pub new_dec : ℤ → SdkDec
  new_dec (pos n) = pos (n * m.unit)
  new_dec (negsuc n) = pos 0 -ℤ pos (suc n * m.unit)

  -- Some coins of a token, if there is the token
  abbrev pub of_token : Option String → SdkDec → Option s.Coins
  of_token none amount = none
  of_token (some token) amount = some (s.of_amount token amount)

  -- NeedLockCoins; `none` is a product without a second token, where the code panics.
  unfoldable pub need_lock_coins : Order → Option s.Coins
  need_lock_coins order =
      of_token (locked_token order)
        (if is_buy order.side then m.mul order.price order.quantity else order.quantity)

  -- NeedUnlockCoins, likewise
  unfoldable pub need_unlock_coins : Order → Option s.Coins
  need_unlock_coins order = of_token (locked_token order) order.remain_locked

  -- GetOrderNewFee
  unfoldable pub get_order_new_fee : KeptOrder → s.Coins
  get_order_new_fee kept =
      s.of_amount kept.fee_per_block.denom
        (m.mul kept.fee_per_block.amount (new_dec kept.order_expire_blocks))

  -- The blocks that GetOrderCostFee charges for
  unfoldable pub charged_blocks : ℤ → KeptOrder → ℤ
  charged_blocks height kept =
      let block_num = height -ℤ get_block_height_from_order_id kept.order.order_id in
      if ltb_ℤ kept.order_expire_blocks block_num then kept.order_expire_blocks else block_num

  -- GetOrderCostFee; GetZeroFee is nothing of the native token.
  unfoldable pub get_order_cost_fee : String → ℤ → KeptOrder → s.Coins
  get_order_cost_fee native height kept =
      if ltb_ℤ (height -ℤ get_block_height_from_order_id kept.order.order_id) (pos 0)
      then s.of_amount native (pos 0)
      else s.of_amount kept.fee_per_block.denom
          (m.mul kept.fee_per_block.amount (new_dec (charged_blocks height kept)))

  -- TryPlaceOrder
  unfoldable pub try_place_order : KeptOrder → Locks s k → Result OrderError (Locks s k)
  try_place_order kept locks = do
    need ← or_fail (need_lock_coins kept.order) panicked
    locked ← or_lock_failed (order_lock_coins s k kept.order.sender need quantity_lock locks)
    or_lock_failed (order_lock_coins s k kept.order.sender (get_order_new_fee kept) fee_lock locked)

  -- The order as PlaceOrder stores it
  abbrev pub placed_order : ℤ → KeptOrder → Exchange → KeptOrder
  placed_order height kept st =
      with_id (format_order_id height (st.block_order_num height +ℤ pos 1)) kept

  -- PlaceOrder
  unfoldable pub place_order : ℤ → KeptOrder → Exchange → Result OrderError Exchange
  place_order height kept st = do
    locks ← try_place_order kept st.locks
    let placed : KeptOrder = placed_order height kept st
    ok (record st {
      locks = locks;
      block_order_num = write_height st.block_order_num height (st.block_order_num height +ℤ pos 1);
      orders = put placed.order.order_id placed st.orders;
      cache = cache_insert placed.order st.cache;
    })

  -- The bank after a payment, which may have failed
  abbrev pub paid_by : Locks s k → Option k.Bank → Locks s k
  paid_by locks none = locks
  paid_by locks (some bank) = record locks { bank = bank }

  -- UnlockCoins of x/token, of which an error leaves what has been written.
  abbrev pub unlocked_or_left :
      String → s.Coins → Result TokenError (Locks s k) → Locks s k → Locks s k
  unlocked_or_left addr coins (err e) locks = locks
  unlocked_or_left addr coins (ok locked) locks =
      paid_by locked (k.module_to_account token_account addr coins locked.bank)

  -- UnlockCoins, which logs an error and goes on with what has been written
  unfoldable pub order_unlock_coins : String → s.Coins → LockCoinsType → Locks s k → Locks s k
  order_unlock_coins addr coins kind locks =
      if s.is_zero coins
      then locks
      else unlocked_or_left addr coins (update_locked_coins s k addr coins false kind locks) locks

  -- AddCollectedFees, of which an error is logged
  unfoldable pub add_collected_fees : s.Coins → String → Locks s k → Locks s k
  add_collected_fees coins from locks =
      if s.is_zero coins
      then locks
      else paid_by locks (k.account_to_module from fee_collector coins locks.bank)

  -- RemoveOrderFromDepthBook
  unfoldable pub remove_order_from_depth_book : Order → QuitType → Exchange → Exchange
  remove_order_from_depth_book order kind st = record st {
    cancel_num = st.cancel_num +ℤ more_cancelled kind;
    expire_num = st.expire_num +ℤ more_expired kind;
    cache = cache_remove order st.cache;
  }

  -- What quitOrder does to the locks: the coins that the order needs unlocked, and its fee.
  unfoldable pub quit_locks : String → ℤ → KeptOrder → s.Coins → Locks s k → Locks s k
  quit_locks native height kept need locks =
      let sender = kept.order.sender in
      let unlocked = order_unlock_coins sender need quantity_lock locks in
      let freed = order_unlock_coins sender (get_order_new_fee kept) fee_lock unlocked in
      add_collected_fees (get_order_cost_fee native height kept) sender freed

  -- quitOrder once the order's status is set. The fee that is given back is a difference of coins,
  -- which may panic.
  unfoldable pub quit_closed :
      String → ℤ → QuitType → KeptOrder → Exchange → Result OrderError Exchange
  quit_closed native height kind closed st = do
    need ← or_fail (need_unlock_coins closed.order) panicked
    receive_fee ←
        or_fail (s.sub (get_order_new_fee closed) (get_order_cost_fee native height closed))
          panicked
    let left : KeptOrder = record closed { order = unlock closed.order }
    ok (
        remove_order_from_depth_book left.order kind (record st {
          locks = quit_locks native height closed need st.locks;
          orders = put left.order.order_id left st.orders;
        }))

  -- quitOrder, which CancelOrder and ExpireOrder call
  unfoldable pub quit_order :
      String → ℤ → QuitType → KeptOrder → Exchange → Result OrderError Exchange
  quit_order native height kind kept st =
      quit_closed native height kind (record kept { order = closed_by kind kept.order }) st
