-- ===== src/Order/Keeper/Booked/Quit.antt =====
-- CancelOrder and ExpireOrder of x/order/keeper/order.go, and sequences of orders.
use Prim.Native.String.{String}
use text.Mathlib.Text.{◌==◌ as string_eq}
use okexchain.Base.{
  ◌≡◌, sym, ap, ◌∙◌, subst, inl, inr, ℤ, pos, ◌+ℤ◌, ◌-ℤ◌, +ℤ_assoc, +ℤ_zero, ◌≤ℤ◌, int_laws, Bool,
  true, false, some, if◌then◌else◌, ok, or_fail->>=-eq-ok, ok-eq, get, total, total-put, at_option,
  get-put-cases,
}
use okexchain.Sdk.{DecMath}
use okexchain.Sdk.Sets.{CoinSets, ModuleBank}
use okexchain.Token.{quantity_lock, fee_lock, Locks}
use okexchain.Order.Types.{locked_token, OrderStatus}
use okexchain.Order.Fill.{unlock}
use okexchain.Order.Keeper.{
  Formats, KeptOrder, QuitType, Exchange, need_unlock_coins, get_order_new_fee, get_order_cost_fee,
  order_unlock_coins, quit_locks, quit_closed, quit_order, remove_order_from_depth_book,
}
use okexchain.Order.Keeper.Booked.{
  locked_by, share, HasLocked, order_unlock_coins-locked_by, add_collected_fees-locked_by,
}
use okexchain.Order.Keeper.Booked.Steps.{
  is_open, closed_by-status, owed, needed, locked_for, IsBooked, Step, Reach, two_shares, place,
  quit, here, next,
}
use okexchain.Order.Keeper.Booked.Place.{place-IsBooked}

module _ {m : DecMath} (s : CoinSets m) (k : ModuleBank s) (fmt : Formats)
    (collector native d : String) where
  open fmt use {format_order_id}

  owed-closed :
      (fee : Bool) (addr : String) (kept : KeptOrder)
      → is_open kept.order.status ≡ false
      → owed s k fmt collector native d fee addr kept ≡ pos 0
  unfolding owed
  owed-closed fee addr kept h = rw h

  quit_locks-locked_by :
      (height : ℤ) (kept : KeptOrder) (need : s.Coins) (locks : Locks s k) (fee : Bool)
      (addr : String)
      → need_unlock_coins s k fmt collector kept.order ≡ some need
      → HasLocked s k d kept.order.sender need quantity_lock locks
      → HasLocked s k d kept.order.sender
          (get_order_new_fee s k fmt collector kept)
          fee_lock
          (order_unlock_coins s k fmt collector kept.order.sender need quantity_lock locks)
      → locked_by s k d fee (quit_locks s k fmt collector native height kept need locks) addr
        ≡ locked_by s k d fee locks addr
          -ℤ (if string_eq kept.order.sender addr
              then locked_for s k fmt collector native d fee kept
              else pos 0)
  unfolding quit_locks
  quit_locks-locked_by height kept need locks fee addr asks has has_fee =
      let sender = kept.order.sender in
      let new_fee = get_order_new_fee s k fmt collector kept in
      let unlocked = order_unlock_coins s k fmt collector sender need quantity_lock locks in
      add_collected_fees-locked_by s k d fmt collector
        (get_order_cost_fee s k fmt collector native height kept) sender fee addr
        (order_unlock_coins s k fmt collector sender new_fee fee_lock unlocked)
      ∙ order_unlock_coins-locked_by s k d fmt collector sender new_fee fee_lock fee addr unlocked
          has_fee
      ∙ ap (λ n. n +ℤ share s k d true fee sender addr (pos 0 -ℤ s.amount d new_fee))
          (order_unlock_coins-locked_by s k d fmt collector sender need quantity_lock fee addr locks
            has)
      ∙ +ℤ_assoc (locked_by s k d fee locks addr) _ _
      ∙ ap (λ n. locked_by s k d fee locks addr +ℤ n)
          (two_shares s k fmt collector native d fee sender addr (pos 0 -ℤ s.amount d need)
            (pos 0 -ℤ s.amount d new_fee))
      ∙ taken fee (string_eq sender addr) (locked_by s k d fee locks addr) (s.amount d need)
          (s.amount d new_fee)
      ∙ ap
          (λ n.
            locked_by s k d fee locks addr
            -ℤ (if string_eq sender addr then (if fee then s.amount d new_fee else n) else pos 0))
          (ap (needed s k fmt collector native d) (sym asks))
    where
      taken :
          (fee same : Bool) (a x y : ℤ)
          → a +ℤ (if same then (if fee then pos 0 -ℤ y else (pos 0 -ℤ x)) else pos 0)
            ≡ a -ℤ (if same then (if fee then y else x) else pos 0)
      taken true true a x y = omega int_laws
      taken false true a x y = omega int_laws
      taken fee false a x y = omega int_laws

  quit_closed-IsBooked :
      (kind : QuitType) (height : ℤ) (id : String) (kept : KeptOrder) (need : s.Coins)
      (status : OrderStatus) (st st' : Exchange s k fmt collector)
      → IsBooked s k fmt collector native d st
      → get id st.orders ≡ some kept
      → is_open kept.order.status ≡ true
      → is_open status ≡ false
      → need_unlock_coins s k fmt collector kept.order ≡ some need
      → HasLocked s k d kept.order.sender need quantity_lock st.locks
      → HasLocked s k d kept.order.sender
          (get_order_new_fee s k fmt collector kept)
          fee_lock
          (order_unlock_coins s k fmt collector kept.order.sender need quantity_lock st.locks)
      → quit_closed s k fmt collector native height kind
          (record kept { order = record kept.order { status = status } })
          st
        ≡ ok st'
      → IsBooked s k fmt collector native d st'
  unfolding quit_closed remove_order_from_depth_book need_unlock_coins get_order_new_fee owed
      locked_token
  quit_closed-IsBooked kind height id kept need status st st' sound found was now asks has has_fee
        h =
      let closed : KeptOrder = record kept { order = record kept.order { status = status } } in
      let left : KeptOrder = record closed { order = unlock closed.order } in
      let (need1, e1, h0) =
        or_fail->>=-eq-ok (need_unlock_coins s k fmt collector closed.order) _ _ h in
      let same_need : need ≡ need1 = some_value (sym asks ∙ e1) in
      let (_, _, h1) =
        or_fail->>=-eq-ok
          (s.sub (get_order_new_fee s k fmt collector closed)
            (get_order_cost_fee s k fmt collector native height closed))
          _ _ h0 in
      let (own, numbers) = sound.numbered id kept found in
      let key = left.order.order_id in
      subst (IsBooked s k fmt collector native d) (ok-eq h1) (record {
        numbered = λ j v e. elim (get-put-cases key j left v st.orders e) [
          | inl (same, e') ↦ (
            ap (λ (x : KeptOrder). x.order.order_id) (sym e') ∙ same,
            subst
                (λ i.
                  (height num : ℤ) × (i ≡ format_order_id height num)
                  × (num ≤ℤ st.block_order_num height))
                (sym own ∙ same) numbers,
          )
          | inr (_, e') ↦ sound.numbered j v e'
        ];
        booked = λ fee addr.
            ap
              (λ n.
                locked_by s k d fee (quit_locks s k fmt collector native height closed n st.locks)
                  addr)
              (sym same_need)
            ∙ quit_locks-locked_by height closed need st.locks fee addr asks has has_fee
            ∙ ap
                (λ n.
                  n
                  -ℤ (if string_eq kept.order.sender addr
                      then locked_for s k fmt collector native d fee kept
                      else pos 0))
                (sound.booked fee addr)
            ∙ sym (
                total-put (owed s k fmt collector native d fee addr) key left st.orders
                ∙ ap
                    (λ o.
                      total (owed s k fmt collector native d fee addr) st.orders
                      -ℤ at_option (owed s k fmt collector native d fee addr) o
                      +ℤ owed s k fmt collector native d fee addr left)
                    (ap (λ a. get a st.orders) own ∙ found)
                ∙ ap
                    (λ n.
                      total (owed s k fmt collector native d fee addr) st.orders
                      -ℤ owed s k fmt collector native d fee addr kept
                      +ℤ n)
                    (owed-closed fee addr left now)
                ∙ +ℤ_zero _
                ∙ ap
                    (λ b.
                      total (owed s k fmt collector native d fee addr) st.orders
                      -ℤ (if b
                          then (if string_eq kept.order.sender addr
                              then locked_for s k fmt collector native d fee kept
                              else pos 0)
                          else pos 0))
                    was);
      })
    where
      some_value : {x y : s.Coins} → some x ≡ some y → x ≡ y
      some_value e = cc

  Step-IsBooked :
      {st st' : Exchange s k fmt collector}
      → Step s k fmt collector native d st st'
      → IsBooked s k fmt collector native d st
      → IsBooked s k fmt collector native d st'
  unfolding quit_order
  Step-IsBooked {st} {st'} (place height sender product side price quantity fee blocks h) sound =
      place-IsBooked s k fmt collector native d height sender product side price quantity fee blocks
        st st' sound h
  Step-IsBooked {st} {st'} (quit kind height id kept need found was asks has has_fee h) sound =
      let (status, e, now) = closed_by-status kind kept.order in
      quit_closed-IsBooked kind height id kept need status st st' sound found was now asks has
        has_fee
        (subst
          (λ o.
            quit_closed s k fmt collector native height kind (record kept { order = o }) st
            ≡ ok st')
          e h)

  -- From a state in which every account has locked with the token module, for quantities and for fees,
  -- just what its open orders ask, and orders are stored under ids of their blocks, every sequence of
  -- placed, cancelled and expired orders leads to such a state, in which each order that is quit is
  -- one that is stored and open, and the token module finds its coins and its fee among the locked
  -- ones.
  pub Reach-IsBooked :
      {st st' : Exchange s k fmt collector}
      → IsBooked s k fmt collector native d st
      → Reach s k fmt collector native d st st'
      → IsBooked s k fmt collector native d st'
  Reach-IsBooked sound here = sound
  Reach-IsBooked sound (next reached step) = Step-IsBooked step (Reach-IsBooked sound reached)
