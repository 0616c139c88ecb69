-- ===== src/Order/Fill/Laws.antt =====
-- What filling the orders at one price comes to.
use okexchain.Base.{
  ◌≡◌, refl, sym, ap, ◌∙◌, ◌⊎◌, inl, inr, ℤ, pos, ◌+ℤ◌, ◌-ℤ◌, ◌≤ℤ◌, ◌<ℤ◌, if◌then◌else◌, ltb_ℤ,
  leb_ℤ, eqb_ℤ, int_laws, -ℤ_parts, eq_of_parts, +ℤ_assoc, +ℤ_zero, zero_+ℤ, true, false, ◌&&◌,
  Bool-cases, List, [], ◌∷◌, Option, some, arith, All,
}
use okexchain.Sdk.{SdkDec, DecMath}
use okexchain.Order.Types.{Order, filled, is_buy}
use okexchain.Order.Fill.{
  Deal, FillKeeper, Fills, fill, unlock, is_filled, settle_order, fill_order, fill_from,
  fill_order_by_key, add_deal, stop,
}

-- The quantity that some orders still want, and that some deals have moved.
unfoldable pub remaining : List Order → SdkDec
remaining [] = pos 0
remaining (order ∷ orders) = order.remain_quantity +ℤ remaining orders

unfoldable pub dealt : List Deal → SdkDec
dealt [] = pos 0
dealt (deal ∷ deals) = deal.quantity +ℤ dealt deals

regroup : (b c a : ℤ) → b +ℤ (c +ℤ a) ≡ a +ℤ b +ℤ c
regroup b c a = omega int_laws

leave : (o r need amount : ℤ) → o -ℤ (need -ℤ amount) +ℤ r +ℤ need ≡ o +ℤ r +ℤ amount
leave o r need amount = omega int_laws

move : (need amount : ℤ) → need ≡ amount +ℤ (need -ℤ amount +ℤ pos 0)
move need amount = omega int_laws

ended :
    (count deals amount need : ℤ) → need ≤ℤ amount → ltb_ℤ count deals && ltb_ℤ amount need ≡ false
ended count deals amount need h = ground arith

le_total : (a o need : ℤ) → leb_ℤ (a +ℤ o) need ≡ true → a +ℤ o ≤ℤ need
le_total a o need h = ground arith

enough_left : (a o r need : ℤ) → need ≤ℤ a +ℤ (o +ℤ r) → need ≤ℤ a +ℤ o +ℤ r
enough_left a o r need h = omega int_laws

module _ (m : DecMath) (k : FillKeeper) where
  open k use {World}

  -- The order is left as it is but for its locked coins, and the deal is for the quantity.
  settle_order-settles :
      (q : SdkDec) (order : Order) (w : World)
      → k.Pays order.product order.side order.order_id
      → (order' : Order) × (w' : World) × (deal : Deal) × (settle_order m k q order w
          ≡ some (order', w', deal))
        × (order'.remain_quantity ≡ order.remain_quantity)
        × (order'.status ≡ order.status)
        × (deal.quantity ≡ q)
  unfolding settle_order
  settle_order-settles q order w pays =
      elim (Bool-cases (is_filled m order.status && ltb_ℤ (pos 0) order.remain_locked)) [
        | inl t ↦
            let (w1, e1) = k.unlock_rest-returns order w pays in
            let ((w2, (fee, receiver)), e2) = k.charge_fee-returns (unlock order) q w1 pays in
            (
              unlock order,
              w2,
              record {
                order_id = order.order_id;
                side = order.side;
                quantity = q;
                fee = fee;
                fee_receiver = receiver;
              },
              rw t (rw e1 (rw e2 refl)),
              refl,
              refl,
              refl,
            )
        | inr t ↦
            let ((w2, (fee, receiver)), e2) = k.charge_fee-returns order q w pays in
            (
              order,
              w2,
              record {
                order_id = order.order_id;
                side = order.side;
                quantity = q;
                fee = fee;
                fee_receiver = receiver;
              },
              rw t (rw e2 refl),
              refl,
              refl,
              refl,
            )
      ]

  -- An order whose divisor is not zero is filled.
  fill_order-fills :
      (price q : SdkDec) (order : Order) (w : World)
      → k.Pays order.product order.side order.order_id
      → eqb_ℤ (order.quantity -ℤ (order.remain_quantity -ℤ q)) (pos 0) ≡ false
      → (order' : Order) × (w' : World) × (deal : Deal) × (fill_order m k price q order w
          ≡ some (order', w', deal))
        × (order'.remain_quantity ≡ order.remain_quantity -ℤ q)
        × (deal.quantity ≡ q)
        × (eqb_ℤ (order.remain_quantity -ℤ q) (pos 0) ≡ true → order'.status ≡ filled)
  unfolding fill_order fill
  fill_order-fills price q order w pays divides =
      let remain = order.remain_quantity -ℤ q in
      let filled_sum = m.mul order.filled_avg_price (order.quantity -ℤ order.remain_quantity) in
      let after : Order = record order {
        remain_quantity = remain;
        filled_avg_price = m.quo (filled_sum +ℤ m.mul price q) (order.quantity -ℤ remain);
        remain_locked =
            if is_buy order.side
            then order.remain_locked -ℤ m.mul price q
            else order.remain_locked -ℤ q;
        status = if eqb_ℤ remain (pos 0) then filled else order.status;
      } in
      let (w1, e1) = k.balance_order-returns after price q w pays in
      let (order', w', deal, e2, left, status, moved) = settle_order-settles q after w1 pays in
      (
        order',
        w',
        deal,
        rw divides (rw e1 e2),
        left,
        moved,
        λ t. status ∙ ap (λ b. if b then filled else order.status) t,
      )

  -- An order that can be filled: none of the keeper's calls panics for it, and it still wants
  -- something, but no more than at first.
  pub record IsFillable (order : Order) : Type 0 where
    pub pays : k.Pays order.product order.side order.order_id
    pub wants : pos 0 <ℤ order.remain_quantity
    pub at_most : order.remain_quantity ≤ℤ order.quantity

  divisor :
      (quantity remain q : ℤ)
      → remain ≤ℤ quantity
      → pos 0 <ℤ q
      → eqb_ℤ (quantity -ℤ (remain -ℤ q)) (pos 0) ≡ false
  divisor quantity remain q h h' = not_zero (quantity -ℤ (remain -ℤ q)) (omega int_laws)
    where
      not_zero : (a : ℤ) → pos 0 <ℤ a → eqb_ℤ a (pos 0) ≡ false
      not_zero a h = ground arith

  zero_left : (a : ℤ) → eqb_ℤ (a -ℤ a) (pos 0) ≡ true
  zero_left a = ground (arith, -ℤ_parts a a)

  some_needed :
      (count deals amount need : ℤ)
      → ltb_ℤ count deals && ltb_ℤ amount need ≡ true
      → pos 0 <ℤ need -ℤ amount
  some_needed count deals amount need h = let less : amount <ℤ need = ground arith in omega int_laws

  -- What the loop has done from `amount` and `count` on.
  abbrev pub Filled : SdkDec → ℤ → SdkDec → List Order → Option (Fills m k) → Type 0
  Filled need deals amount queue result =
      (fills : Fills m k) × (result ≡ some fills)
      × (remaining fills.queue +ℤ fills.amount ≡ remaining queue +ℤ amount)
      × (fills.amount ≡ amount +ℤ dealt fills.deals)
      × (fills.amount ≤ℤ need)
      × ((fills.amount ≡ need) ⊎ (deals ≤ℤ fills.count))
      × All (λ order. order.status ≡ filled) fills.updated

  stop-Filled :
      (need deals amount count : ℤ) (queue : List Order) (w : World)
      → amount ≤ℤ need
      → ltb_ℤ count deals && ltb_ℤ amount need ≡ false
      → Filled need deals amount queue (some (stop m k amount count queue w))
  unfolding dealt
  stop-Filled need deals amount count queue w le ends = (
    stop m k amount count queue w,
    refl,
    refl,
    omega int_laws,
    le,
    reason need deals amount count le ends,
    tt,
  )
    where
      reason :
          (need deals amount count : ℤ)
          → amount ≤ℤ need
          → ltb_ℤ count deals && ltb_ℤ amount need ≡ false
          → (amount ≡ need) ⊎ (deals ≤ℤ count)
      reason need deals amount count le ends = elim (Bool-cases (ltb_ℤ count deals)) [
        | inl t ↦ inl (eq_of_parts _ _ (ground arith))
        | inr t ↦ inr (ground arith)
      ]

  add_deal-Filled :
      (need deals amount : ℤ) (order order' : Order) (deal : Deal) (queue : List Order)
      (rest : Option (Fills m k))
      → deal.quantity ≡ order.remain_quantity
      → order'.status ≡ filled
      → Filled need deals (amount +ℤ order.remain_quantity) queue rest
      → Filled need deals amount (order ∷ queue) (add_deal m k deal order' rest)
  unfolding dealt remaining
  add_deal-Filled need deals amount order order' deal queue rest q f
        (fills, e, h1, h2, h3, h4, h5) =
      (
        record fills { deals = deal ∷ fills.deals; updated = order' ∷ fills.updated },
        ap (add_deal m k deal order') e,
        h1 ∙ regroup (remaining queue) amount order.remain_quantity,
        h2
            ∙ +ℤ_assoc amount order.remain_quantity (dealt fills.deals)
            ∙ ap (λ n. amount +ℤ (n +ℤ dealt fills.deals)) (sym q),
        h3,
        h4,
        (f, h5),
      )

  -- The order that the rest of the amount fills in part.
  part-Filled :
      (need deals amount count : ℤ) (order order' : Order) (deal : Deal) (queue : List Order)
      (w : World)
      → order'.remain_quantity ≡ order.remain_quantity -ℤ (need -ℤ amount)
      → deal.quantity ≡ need -ℤ amount
      → Filled need deals amount
          (order ∷ queue)
          (some (record (stop m k need count (order' ∷ queue) w) { deals = deal ∷ [] }))
  unfolding dealt remaining
  part-Filled need deals amount count order order' deal queue w left moved = (
    record (stop m k need count (order' ∷ queue) w) { deals = deal ∷ [] },
    refl,
    rw left (leave order.remain_quantity (remaining queue) need amount),
    rw moved (move need amount),
    omega arith,
    inl refl,
    tt,
  )

  fill_from-Filled :
      (need price : SdkDec) (deals : ℤ) (amount : SdkDec) (count : ℤ) (queue : List Order)
      (w : World)
      → All IsFillable queue
      → amount ≤ℤ need
      → need ≤ℤ amount +ℤ remaining queue
      → Filled need deals amount queue (fill_from m k need price deals amount count queue w)
  unfolding fill_from remaining dealt
  fill_from-Filled need price deals amount count [] w fillable le enough =
      let ends : ltb_ℤ count deals && ltb_ℤ amount need ≡ false =
        ended count deals amount need (omega int_laws) in
      rw ends (stop-Filled need deals amount count [] w le ends)
  fill_from-Filled need price deals amount count (order ∷ orders) w (can, fillable) le enough =
      let total = amount +ℤ order.remain_quantity in
      let last = need -ℤ amount in
      elim (Bool-cases (ltb_ℤ count deals && ltb_ℤ amount need)) [
        | inr ends ↦ rw ends (stop-Filled need deals amount count (order ∷ orders) w le ends)
        | inl goes ↦ rw goes (elim (Bool-cases (leb_ℤ total need)) [
          | inl whole ↦
              let (order1, w1, deal1, run, _, moved, status) =
                fill_order-fills price order.remain_quantity order w can.pays (
                  divisor order.quantity order.remain_quantity order.remain_quantity can.at_most
                    can.wants) in
              rw (whole, run)
                (add_deal-Filled need deals amount order order1 deal1 orders _ moved
                  (status (zero_left order.remain_quantity))
                  (fill_from-Filled need price deals total (count +ℤ pos 1) orders w1 fillable
                    (le_total amount order.remain_quantity need whole)
                    (enough_left amount order.remain_quantity (remaining orders) need enough)))
          | inr part ↦
              let (order2, w2, deal2, run, left, moved, _) =
                fill_order-fills price last order w can.pays (
                  divisor order.quantity order.remain_quantity last can.at_most
                    (some_needed count deals amount need goes)) in
              rw (part, run)
                (part-Filled need deals amount count order order2 deal2 orders w2 left moved)
        ])
      ]

  -- At one price, where each order of the queue still wants something, but no more than at first, and is
  -- one for which the keeper's calls do not panic, where the orders together want at least what is to
  -- be filled, and that is not negative, fillOrderByKey comes to an end without running out of orders. What the queue still
  -- wants falls by the amount filled, which is the sum of the deals and at most what was asked for;
  -- it is less only where the limit on deals was reached. Every order that has left the queue is
  -- filled.
  pub fill_order_by_key-fills :
      (need price : SdkDec) (deals : ℤ) (queue : List Order) (w : World)
      → All IsFillable queue
      → pos 0 ≤ℤ need
      → need ≤ℤ remaining queue
      → (fills : Fills m k) × (fill_order_by_key m k need price deals queue w ≡ some fills)
        × (remaining fills.queue +ℤ fills.amount ≡ remaining queue)
        × (fills.amount ≡ dealt fills.deals)
        × (fills.amount ≤ℤ need)
        × ((fills.amount ≡ need) ⊎ (deals ≤ℤ fills.count))
        × All (λ order. order.status ≡ filled) fills.updated
  unfolding fill_order_by_key
  fill_order_by_key-fills need price deals queue w fillable h enough =
      let (fills, e, h1, h2, h3, h4, h5) =
        fill_from-Filled need price deals (pos 0) (pos 0) queue w fillable h
          (rw (zero_+ℤ (remaining queue)) enough) in
      (fills, e, h1 ∙ +ℤ_zero (remaining queue), h2 ∙ zero_+ℤ (dealt fills.deals), h3, h4, h5)
