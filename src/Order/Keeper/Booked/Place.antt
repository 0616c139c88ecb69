-- ===== src/Order/Keeper/Booked/Place.antt =====
-- PlaceOrder of x/order/keeper/order.go against what is locked for the open orders.
use Prim.Native.String.{String}
use text.Mathlib.Text.{◌==◌ as string_eq}
use okexchain.Base.{
  ◌≡◌, sym, ap, ◌∙◌, subst, inl, inr, ℤ, pos, ◌+ℤ◌, ◌-ℤ◌, -ℤ_zero, ◌≤ℤ◌, eqb_ℤ, arith, Bool,
  Bool-cases, if◌then◌else◌, ok, >>=-eq-ok, ok-eq, total, total-put, at_option, get-put-cases,
}
use okexchain.Sdk.{DecMath, SdkDec, Coin}
use okexchain.Sdk.Sets.{CoinSets, ModuleBank}
use okexchain.Order.Types.{Side}
use okexchain.Order.Fill.{new_order}
use okexchain.Order.Keeper.{
  new_dec, Formats, KeptOrder, Exchange, need_lock_coins, get_order_new_fee, try_place_order,
  with_id, place_order, write_height,
}
use okexchain.Order.Keeper.Booked.Steps.{
  owed, needed, IsBooked, new_kept, new_order-need, try_place_order-locked_by, is_free, later_num,
  le_trans_ℤ,
}

module _ {m : DecMath} (s : CoinSets m) (k : ModuleBank s) (fmt : Formats)
    (collector native d : String) where
  open fmt use {format_order_id}

  owed-placed :
      (sender product : String) (side : Side) (price quantity : SdkDec) (fee_per_block : Coin)
      (blocks : ℤ) (id : String) (fee : Bool) (addr : String)
      → owed s k fmt collector native d fee addr (
          with_id id (
            new_kept s k fmt collector native d sender product side price quantity fee_per_block
              blocks))
        ≡ (if string_eq sender addr
            then (if fee
                then s.amount d (
                    get_order_new_fee s k fmt collector (
                      new_kept s k fmt collector native d sender product side price quantity
                        fee_per_block blocks))
                else needed s k fmt collector native d (
                    need_lock_coins s k fmt collector
                      (new_order m sender product side price quantity)))
            else pos 0)
  unfolding owed new_order get_order_new_fee
  owed-placed sender product side price quantity fee_per_block blocks id fee addr =
      ap
        (λ x.
          if string_eq sender addr
          then (if fee
              then s.amount d (
                  s.of_amount fee_per_block.denom
                    (m.mul fee_per_block.amount (new_dec s k fmt collector blocks)))
              else needed s k fmt collector native d x)
          else pos 0)
        (new_order-need s k fmt collector native d sender product side price quantity id)

  pub place-IsBooked :
      (height : ℤ) (sender product : String) (side : Side) (price quantity : SdkDec)
      (fee_per_block : Coin) (blocks : ℤ) (st st' : Exchange s k fmt collector)
      → IsBooked s k fmt collector native d st
      → place_order s k fmt collector height
          (new_kept s k fmt collector native d sender product side price quantity fee_per_block
            blocks)
          st
        ≡ ok st'
      → IsBooked s k fmt collector native d st'
  unfolding place_order new_order
  place-IsBooked height sender product side price quantity fee_per_block blocks st st' sound h =
      let kept =
        new_kept s k fmt collector native d sender product side price quantity fee_per_block
          blocks in
      let (locks, tried, h2) = >>=-eq-ok (try_place_order s k fmt collector kept st.locks) _ h in
      let num = st.block_order_num height +ℤ pos 1 in
      let id = format_order_id height num in
      let placed = with_id id kept in
      let free = is_free s k fmt collector native d height st sound in
      subst (IsBooked s k fmt collector native d) (ok-eq h2) (record {
        numbered = λ j v e. elim (get-put-cases id j placed v st.orders e) [
          | inl (same, e') ↦ (
            ap (λ (x : KeptOrder). x.order.order_id) (sym e') ∙ same,
            (height, num, sym same, at_num st.block_order_num height),
          )
          | inr (_, e') ↦
              let (own, (height', num', same, le)) = sound.numbered j v e' in
              (
                own,
                (
                  height',
                  num',
                  same,
                  le_trans_ℤ s k fmt collector native d num' _ _ le
                      (later_num s k fmt collector native d st.block_order_num height height'),
                ),
              )
        ];
        booked = λ fee addr.
            try_place_order-locked_by s k fmt collector native d kept st.locks locks fee addr tried
            ∙ plus _ _ _ _ (sound.booked fee addr) (
                sym
                  (owed-placed sender product side price quantity fee_per_block blocks id fee addr))
            ∙ sym (
                total-put (owed s k fmt collector native d fee addr) id placed st.orders
                ∙ ap
                    (λ o.
                      total (owed s k fmt collector native d fee addr) st.orders
                      -ℤ at_option (owed s k fmt collector native d fee addr) o
                      +ℤ owed s k fmt collector native d fee addr placed)
                    free
                ∙ ap (λ n. n +ℤ owed s k fmt collector native d fee addr placed)
                    (-ℤ_zero (total (owed s k fmt collector native d fee addr) st.orders)));
      })
    where
      plus : (a b x y : ℤ) → a ≡ b → x ≡ y → a +ℤ x ≡ b +ℤ y
      plus a b x y e f = λ i. e i +ℤ f i

      at_num :
          (f : ℤ → ℤ) (height : ℤ)
          → f height +ℤ pos 1 ≤ℤ write_height f height (f height +ℤ pos 1) height
      at_num f height = elim (Bool-cases (eqb_ℤ height height)) [
        | inl t ↦ rw t (omega arith)
        | inr t ↦ absurd (ground arith)
      ]
