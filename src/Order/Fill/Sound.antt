-- ===== src/Order/Fill/Sound.antt =====
-- The state of an order over its life.
use Prim.Native.String.{String}
use okexchain.Base.{
  ◌≡◌, refl, ◌⊎◌, inl, inr, ℤ, pos, ◌+ℤ◌, ◌-ℤ◌, ◌≤ℤ◌, ◌<ℤ◌, eqb_ℤ, int_laws, eq_of_parts, some,
  true, false, Bool-cases, arith, if◌then◌else◌,
}
use okexchain.Sdk.{SdkDec, DecMath}
use okexchain.Order.Types.{is_buy, Order, Side, sell, open_order, filled}
use okexchain.Order.Fill.{fill, new_order}

-- An order that is open still wants something and one that is filled wants nothing. It never wants
-- more than at first, and a sell order has locked just what it still wants.
abbrev pub IsSound : Order → Type 0
IsSound order =
    (pos 0 ≤ℤ order.remain_quantity)
    × (order.remain_quantity ≤ℤ order.quantity)
    × (((order.status ≡ filled) × (order.remain_quantity ≡ pos 0))
        ⊎ ((order.status ≡ open_order) × (pos 0 <ℤ order.remain_quantity)))
    × (order.side ≡ sell → order.remain_locked ≡ order.remain_quantity)

zero : (a : ℤ) → eqb_ℤ a (pos 0) ≡ true → a ≡ pos 0
zero a h = eq_of_parts _ _ (ground arith)

positive : (a : ℤ) → eqb_ℤ a (pos 0) ≡ false → pos 0 ≤ℤ a → pos 0 <ℤ a
positive a h n = ground arith

module _ (m : DecMath) where
  -- A new order for a quantity above zero is sound, and filling a sound order that is open by an
  -- amount above zero and at most what it still wants does not divide by zero and leaves it sound.
  pub fill-IsSound :
      (sender product : String) (side : Side) (price quantity fill_price amount : SdkDec)
      (order : Order)
      → pos 0 <ℤ quantity
      → IsSound order
      → order.status ≡ open_order
      → pos 0 <ℤ amount
      → amount ≤ℤ order.remain_quantity
      → IsSound (new_order m sender product side price quantity)
        × ((order' : Order) × (fill m fill_price amount order ≡ some order') × IsSound order')
  unfolding fill new_order
  fill-IsSound sender product side price quantity fill_price amount order hq (n, l, st, lock) o ha
        le =
      (
        (omega arith, omega arith, inr (refl, hq), λ e. ground arith),
        (after, rw divides refl, (omega int_laws, omega int_laws, status, λ e. ground arith)),
      )
    where
      not_zero : (a : ℤ) → pos 0 <ℤ a → eqb_ℤ a (pos 0) ≡ false
      not_zero a h = ground arith

      divides : eqb_ℤ (order.quantity -ℤ (order.remain_quantity -ℤ amount)) (pos 0) ≡ false
      divides = not_zero (order.quantity -ℤ (order.remain_quantity -ℤ amount)) (omega int_laws)

      remain : ℤ
      remain = order.remain_quantity -ℤ amount

      after : Order
      after = record order {
        remain_quantity = remain;
        filled_avg_price =
            m.quo
              (m.mul order.filled_avg_price (order.quantity -ℤ order.remain_quantity)
                +ℤ m.mul fill_price amount)
              (order.quantity -ℤ remain);
        remain_locked =
            if is_buy order.side
            then order.remain_locked -ℤ m.mul fill_price amount
            else order.remain_locked -ℤ amount;
        status = if eqb_ℤ remain (pos 0) then filled else order.status;
      }

      status :
          (((if eqb_ℤ remain (pos 0) then filled else order.status) ≡ filled) × (remain ≡ pos 0))
          ⊎ (((if eqb_ℤ remain (pos 0) then filled else order.status) ≡ open_order)
              × (pos 0 <ℤ remain))
      status = elim (Bool-cases (eqb_ℤ remain (pos 0))) [
        | inl t ↦ rw t (inl (refl, zero remain t))
        | inr t ↦ rw t (inr (o, positive remain t (omega int_laws)))
      ]
