-- ===== src/Order/Keeper/Booked/Steps.antt =====
-- What accounts have locked against their open orders, through PlaceOrder, CancelOrder and ExpireOrder
-- of x/order/keeper/order.go.
use Prim.Native.String.{String}
use text.Mathlib.Text.{◌==◌ as string_eq}
use okexchain.Base.{
  Option, or_fail->>=-eq-ok, ◌≡◌, refl, sym, ap, ◌∙◌, subst, inl, inr, ℤ, pos, ◌+ℤ◌, +ℤ_assoc, ◌≤ℤ◌,
  eqb_ℤ, int_laws, arith, eq_of_parts, Bool, true, false, Bool-cases, Option-cases, none, some,
  if◌then◌else◌, Result, ok, err, >>=-eq-ok, get, total,
}
use okexchain.Sdk.{DecMath, SdkDec, Coin}
use okexchain.Sdk.Sets.{CoinSets, ModuleBank}
use okexchain.Token.{quantity_lock, fee_lock, Locks, TokenError, order_lock_coins}
use okexchain.Order.Types.{
  locked_token, Order, Side, buy, sell, OrderStatus, open_order, filled, cancelled, expired,
  partial_filled_cancelled, partial_filled_expired,
}
use okexchain.Order.Fill.{new_order, cancel, expire}
use okexchain.Order.Keeper.{
  Formats, KeptOrder, QuitType, order_cancel, order_expire, or_lock_failed, Exchange,
  need_lock_coins, need_unlock_coins, get_order_new_fee, try_place_order, place_order,
  order_unlock_coins, closed_by, quit_order, write_height,
}
use okexchain.Order.Keeper.Booked.{locked_by, share, HasLocked, order_lock_coins-locked_by}

abbrev pub is_open : OrderStatus → Bool
is_open open_order = true
is_open filled = false
is_open cancelled = false
is_open expired = false
is_open partial_filled_cancelled = false
is_open partial_filled_expired = false

-- Cancel and Expire set the status to one that is not open, and nothing else.
pub closed_by-status :
    (kind : QuitType) (order : Order)
    → (status : OrderStatus) × (closed_by kind order ≡ record order { status = status })
      × (is_open status ≡ false)
unfolding cancel expire
closed_by-status order_cancel order =
    elim (Bool-cases (eqb_ℤ order.remain_quantity order.quantity)) [
      | inl t ↦ (cancelled, rw t, refl)
      | inr t ↦ (partial_filled_cancelled, rw t, refl)
    ]
closed_by-status order_expire order =
    elim (Bool-cases (eqb_ℤ order.remain_quantity order.quantity)) [
      | inl t ↦ (expired, rw t, refl)
      | inr t ↦ (partial_filled_expired, rw t, refl)
    ]

pub or_lock_failed-eq-ok :
    {A : Type 0} (o : Result TokenError A) {a : A} → or_lock_failed o ≡ ok a → o ≡ ok a
or_lock_failed-eq-ok (err e) h = cc
or_lock_failed-eq-ok (ok b) h = cc

module _ {m : DecMath} (s : CoinSets m) (k : ModuleBank s) (fmt : Formats)
    (collector native d : String) where
  open fmt use {format_order_id}

  abbrev State : Type 0
  State = Exchange s k fmt collector

  -- The amount of coins that may be missing
  abbrev pub needed : Option s.Coins → ℤ
  needed none = pos 0
  needed (some coins) = s.amount d coins

  -- What an order has locked, for its fee or for its quantity.
  abbrev pub locked_for : Bool → KeptOrder → ℤ
  locked_for fee kept =
      if fee
      then s.amount d (get_order_new_fee s k fmt collector kept)
      else needed (need_unlock_coins s k fmt collector kept.order)

  -- What an order asks of the locks of an account: nothing unless it is open and the account's.
  unfoldable pub owed : Bool → String → KeptOrder → ℤ
  owed fee addr kept =
      if is_open kept.order.status
      then (if string_eq kept.order.sender addr then locked_for fee kept else pos 0)
      else pos 0

  -- Every account has locked, for quantities and for fees, what its open orders ask. An order is
  -- stored under its id, whose number is at most that of the last order of its block.
  pub record IsBooked (st : Exchange s k fmt collector) : Type 0 where
    pub numbered :
        (id : String) (kept : KeptOrder)
        → get id st.orders ≡ some kept
        → (kept.order.order_id ≡ id)
          × ((height num : ℤ) × (id ≡ format_order_id height num)
              × (num ≤ℤ st.block_order_num height))
    pub booked :
        (fee : Bool) (addr : String)
        → locked_by s k d fee st.locks addr ≡ total (owed fee addr) st.orders

  -- An order as it comes from a message, with its fee
  abbrev pub new_kept : String → String → Side → SdkDec → SdkDec → Coin → ℤ → KeptOrder
  new_kept sender product side price quantity fee blocks = record {
    order = new_order m sender product side price quantity;
    fee_per_block = fee;
    order_expire_blocks = blocks;
  }

  -- An order is placed, or one that is stored and open is cancelled or expires. In the latter case the
  -- account has locked what is unlocked: the code logs it and goes on where it has not.
  pub data Step : Exchange s k fmt collector → Exchange s k fmt collector → Type 0 where
    place :
        {st st' : Exchange s k fmt collector} (height : ℤ) (sender product : String) (side : Side)
        (price quantity : SdkDec) (fee : Coin) (blocks : ℤ)
        → place_order s k fmt collector height
            (new_kept sender product side price quantity fee blocks)
            st
          ≡ ok st'
        → Step st st'
    quit :
        {st st' : Exchange s k fmt collector} (kind : QuitType) (height : ℤ) (id : String)
        (kept : KeptOrder) (need : s.Coins)
        → get id st.orders ≡ some kept
        → is_open kept.order.status ≡ true
        → need_unlock_coins s k fmt collector kept.order ≡ some need
        → HasLocked s k d kept.order.sender need quantity_lock st.locks
        → HasLocked s k d kept.order.sender
            (get_order_new_fee s k fmt collector kept)
            fee_lock
            (order_unlock_coins s k fmt collector kept.order.sender need quantity_lock st.locks)
        → quit_order s k fmt collector native height kind kept st ≡ ok st'
        → Step st st'

  pub data Reach (st : Exchange s k fmt collector) : Exchange s k fmt collector → Type 0 where
    here : Reach st st
    next : {st' st'' : Exchange s k fmt collector} → Reach st st' → Step st' st'' → Reach st st''

  -- A new order has locked what is locked for it when it is placed.
  pub new_order-need :
      (sender product : String) (side : Side) (price quantity : SdkDec) (id : String)
      → need_unlock_coins s k fmt collector
          (record (new_order m sender product side price quantity) { order_id = id })
        ≡ need_lock_coins s k fmt collector (new_order m sender product side price quantity)
  unfolding need_unlock_coins need_lock_coins new_order locked_token
  new_order-need sender product buy price quantity id = refl
  new_order-need sender product sell price quantity id = refl

  pub two_shares :
      (fee : Bool) (addr addr' : String) (x y : ℤ)
      → share s k d false fee addr addr' x +ℤ share s k d true fee addr addr' y
        ≡ (if string_eq addr addr' then (if fee then y else x) else pos 0)
  two_shares true addr addr' x y = elim (Bool-cases (string_eq addr addr')) [
    | inl t ↦ rw t (omega int_laws)
    | inr t ↦ rw t (omega int_laws)
  ]
  two_shares false addr addr' x y = elim (Bool-cases (string_eq addr addr')) [
    | inl t ↦ rw t (omega int_laws)
    | inr t ↦ rw t (omega int_laws)
  ]

  pub try_place_order-locked_by :
      (kept : KeptOrder) (locks locks' : Locks s k) (fee : Bool) (addr : String)
      → try_place_order s k fmt collector kept locks ≡ ok locks'
      → locked_by s k d fee locks' addr
        ≡ locked_by s k d fee locks addr
          +ℤ (if string_eq kept.order.sender addr
              then (if fee
                  then s.amount d (get_order_new_fee s k fmt collector kept)
                  else needed (need_lock_coins s k fmt collector kept.order))
              else pos 0)
  unfolding try_place_order
  try_place_order-locked_by kept locks locks' fee addr h =
      let sender = kept.order.sender in
      let new_fee = get_order_new_fee s k fmt collector kept in
      let (need, e, h0) = or_fail->>=-eq-ok (need_lock_coins s k fmt collector kept.order) _ _ h in
      let (locks1, h1, h2) =
        >>=-eq-ok (or_lock_failed (order_lock_coins s k sender need quantity_lock locks)) _ h0 in
      order_lock_coins-locked_by s k d sender new_fee fee_lock fee addr locks1 locks'
        (or_lock_failed-eq-ok _ h2)
      ∙ ap (λ n. n +ℤ share s k d true fee sender addr (s.amount d new_fee))
          (order_lock_coins-locked_by s k d sender need quantity_lock fee addr locks locks1
            (or_lock_failed-eq-ok _ h1))
      ∙ +ℤ_assoc (locked_by s k d fee locks addr) _ _
      ∙ ap (λ n. locked_by s k d fee locks addr +ℤ n)
          (two_shares fee sender addr (s.amount d need) (s.amount d new_fee))
      ∙ ap
          (λ n.
            locked_by s k d fee locks addr
            +ℤ (if string_eq sender addr then (if fee then s.amount d new_fee else n) else pos 0))
          (ap needed (sym e))

  not_later : (a b : ℤ) → a ≡ b +ℤ pos 1 → a ≤ℤ b → false ≡ true
  not_later a b e h = absurd (past b (subst (λ n. n ≤ℤ b) e h))
    where
      past : (b : ℤ) → b +ℤ pos 1 ≤ℤ b → ⊥
      past b h = omega int_laws

  -- The id of the next order of a block is not taken.
  pub is_free :
      (height : ℤ) (st : Exchange s k fmt collector)
      → IsBooked st
      → get (format_order_id height (st.block_order_num height +ℤ pos 1)) st.orders ≡ none
  is_free height st h =
      let id = format_order_id height (st.block_order_num height +ℤ pos 1) in
      elim (Option-cases (get id st.orders)) [
        | inl e ↦ e
        | inr (kept, e) ↦
            let (_, (height', num, same, le)) = h.numbered id kept e in
            let (heights, nums) = fmt.format_order_id-eq height _ height' num same in
            cc (
              not_later num (st.block_order_num height) (sym nums)
                (subst (λ n. num ≤ℤ st.block_order_num n) (sym heights) le))
      ]

  pub later_num : (f : ℤ → ℤ) (height h : ℤ) → f h ≤ℤ write_height f height (f height +ℤ pos 1) h
  later_num f height h = elim (Bool-cases (eqb_ℤ height h)) [
    | inr t ↦ rw t (omega arith)
    | inl t ↦
        let e : height ≡ h = eq_of_parts height h (ground arith) in
        rw t (subst (λ n. f n ≤ℤ f height +ℤ pos 1) e (up (f height)))
  ]
    where
      up : (a : ℤ) → a ≤ℤ a +ℤ pos 1
      up a = omega int_laws

  pub le_trans_ℤ : (a b c : ℤ) → a ≤ℤ b → b ≤ℤ c → a ≤ℤ c
  le_trans_ℤ a b c h h' = omega arith
