-- ===== src/Order/Keeper/Fees.antt =====
-- The fees of x/order/keeper/fee.go: what an order that is cancelled or expires pays, against what was
-- locked for it.
use Prim.Native.String.{String}
use text.Mathlib.Text.{◌==◌ as string_eq}
use okexchain.Base.{
  ◌≡◌, refl, ap, sym, ◌∙◌, subst, inl, inr, ℤ, pos, ◌-ℤ◌, ◌≤ℤ◌, ltb_ℤ, arith, Bool, true, false,
  Bool-cases, Option, none, some, ◌>>=◌, if◌then◌else◌, ok, or_fail,
}
use okexchain.Sdk.{DecMath, SdkDec}
use okexchain.Sdk.Sets.{CoinSets, ModuleBank}
use okexchain.Order.Types.{Order, OrderStatus, locked_token}
use okexchain.Order.Keeper.Booked.Steps.{closed_by-status}
use okexchain.Order.Keeper.{
  Formats, KeptOrder, QuitType, Exchange, new_dec, get_order_new_fee, get_order_cost_fee,
  charged_blocks, of_token, need_unlock_coins, quit_order, quit_closed, closed_by, panicked,
}

-- A product with a whole number of units grows with that number, and is nothing for none.
pub record GrowsWithBlocks {m : DecMath} (s : CoinSets m) (k : ModuleBank s) (fmt : Formats)
    (collector : String) : Type 0 where
  pub mul_zero : (a : SdkDec) → m.mul a (new_dec s k fmt collector (pos 0)) ≡ pos 0
  pub mul_grows :
      (a : SdkDec) (n n' : ℤ)
      → pos 0 ≤ℤ a
      → pos 0 ≤ℤ n
      → n ≤ℤ n'
      → m.mul a (new_dec s k fmt collector n) ≤ℤ m.mul a (new_dec s k fmt collector n')

-- Sub does not panic where no denomination comes out negative.
abbrev pub SubtractsWhatItHolds : {m : DecMath} → CoinSets m → Type 0
SubtractsWhatItHolds s =
    (x y : s.Coins)
    → ((d : String) → s.amount d y ≤ℤ s.amount d x)
    → (z : s.Coins) × (s.sub x y ≡ some z)

succeeds :
    {E A B : Type 0} (stop : E) (o : Option A) (f : A → B) {a : A}
    → o ≡ some a
    → (b : B) × ((or_fail o stop >>= λ x. ok (f x)) ≡ ok b)
succeeds stop none f e = cc
succeeds stop (some x) f e = (f x, refl)

module _ {m : DecMath} (s : CoinSets m) (k : ModuleBank s) (fmt : Formats)
    (collector native : String) (grows : GrowsWithBlocks s k fmt collector) where
  fee_blocks :
      (height : ℤ) (kept : KeptOrder)
      → pos 0 ≤ℤ kept.order_expire_blocks
      → ltb_ℤ (height -ℤ fmt.get_block_height_from_order_id kept.order.order_id) (pos 0) ≡ false
      → (pos 0 ≤ℤ charged_blocks s k fmt collector height kept)
        × (charged_blocks s k fmt collector height kept ≤ℤ kept.order_expire_blocks)
  unfolding charged_blocks
  fee_blocks height kept some_blocks h =
      capped (height -ℤ fmt.get_block_height_from_order_id kept.order.order_id)
        kept.order_expire_blocks some_blocks h
    where
      capped :
          (n e : ℤ)
          → pos 0 ≤ℤ e
          → ltb_ℤ n (pos 0) ≡ false
          → (pos 0 ≤ℤ (if ltb_ℤ e n then e else n)) × ((if ltb_ℤ e n then e else n) ≤ℤ e)
      capped n e h h' = ground arith

  of_amount_between :
      (d e : String) (a b : SdkDec)
      → pos 0 ≤ℤ a
      → a ≤ℤ b
      → (pos 0 ≤ℤ s.amount d (s.of_amount e a))
        × (s.amount d (s.of_amount e a) ≤ℤ s.amount d (s.of_amount e b))
  of_amount_between d e a b h h' =
      rw (s.amount-of_amount d e a, s.amount-of_amount d e b)
        (elim (Bool-cases (string_eq e d)) [
          | inl t ↦ rw t (h, h')
          | inr t ↦ rw t (omega arith, omega arith)
        ])

  -- Where the fee of an order for a block and its number of blocks are not negative, what it pays when
  -- it is cancelled or expires at any height is, in every denomination, between nothing and the fee
  -- that is locked for it when it is placed. Products with a whole number grow with the number and
  -- are nothing at none.
  pub get_order_cost_fee-bounds :
      (height : ℤ) (kept : KeptOrder) (d : String)
      → pos 0 ≤ℤ kept.fee_per_block.amount
      → pos 0 ≤ℤ kept.order_expire_blocks
      → (pos 0 ≤ℤ s.amount d (get_order_cost_fee s k fmt collector native height kept))
        × (s.amount d (get_order_cost_fee s k fmt collector native height kept)
            ≤ℤ s.amount d (get_order_new_fee s k fmt collector kept))
  unfolding get_order_cost_fee get_order_new_fee
  get_order_cost_fee-bounds height kept d rich some_blocks =
      let per_block = kept.fee_per_block.amount in
      let denom = kept.fee_per_block.denom in
      let product = λ (n : ℤ). m.mul per_block (new_dec s k fmt collector n) in
      let from_zero = λ (n : ℤ) (h : pos 0 ≤ℤ n).
        subst (λ x. x ≤ℤ product n) (grows.mul_zero per_block)
          (grows.mul_grows per_block (pos 0) n rich (omega arith) h) in
      elim (Bool-cases
        (ltb_ℤ (height -ℤ fmt.get_block_height_from_order_id kept.order.order_id) (pos 0))) [
          | inl t ↦
              let nothing : s.amount d (s.of_amount native (pos 0)) ≡ pos 0 =
                s.amount-of_amount d native (pos 0) ∙ same (string_eq native d) in
              let (held, _) =
                of_amount_between d denom (product kept.order_expire_blocks)
                  (product kept.order_expire_blocks)
                  (from_zero kept.order_expire_blocks some_blocks)
                  (self (product kept.order_expire_blocks)) in
              rw t (
                subst (λ n. pos 0 ≤ℤ n) (sym nothing) (omega arith),
                subst (λ n. n ≤ℤ s.amount d (s.of_amount denom (product kept.order_expire_blocks)))
                    (sym nothing) held,
              )
          | inr t ↦
              let (low, high) = fee_blocks height kept some_blocks t in
              let n = charged_blocks s k fmt collector height kept in
              rw t (
                of_amount_between d denom (product n) (product kept.order_expire_blocks)
                  (from_zero n low)
                  (grows.mul_grows per_block n kept.order_expire_blocks rich low high))
        ]
    where
      same : (b : Bool) → (if b then pos 0 else pos 0) ≡ pos 0
      same true = refl
      same false = refl

      self : (a : ℤ) → a ≤ℤ a
      self a = omega arith

  -- Where the order's fee per block and its number of blocks are not negative, products with a whole
  -- number grow with the number and are nothing at none, the difference of coins does not panic
  -- unless some denomination comes out negative, and the order is an ask or its product has a second
  -- token, quitOrder reaches its end at any height and whatever is locked: neither the index into
  -- the product's tokens nor the difference of the fees panics.
  pub quit_order_total :
      SubtractsWhatItHolds s
      → (height : ℤ) (kind : QuitType) (kept : KeptOrder) (token : String)
        (st : Exchange s k fmt collector)
      → pos 0 ≤ℤ kept.fee_per_block.amount
      → pos 0 ≤ℤ kept.order_expire_blocks
      → locked_token kept.order ≡ some token
      → (st' : Exchange s k fmt collector) × (quit_order s k fmt collector native height kind kept
            st
          ≡ ok st')
  unfolding quit_order quit_closed need_unlock_coins locked_token
  quit_order_total subtracts height kind kept token st rich some_blocks has_token =
      let closed : KeptOrder = record kept { order = closed_by kind kept.order } in
      let (fee, e) =
        subtracts (get_order_new_fee s k fmt collector closed)
          (get_order_cost_fee s k fmt collector native height closed)
          (λ d. (get_order_cost_fee-bounds height closed d rich some_blocks).1) in
      rw (asks kind) (
        succeeds panicked
          (s.sub (get_order_new_fee s k fmt collector closed)
            (get_order_cost_fee s k fmt collector native height closed))
          _ e)
    where
      status_aside :
          (status : OrderStatus)
          → locked_token (record kept.order { status = status }) ≡ locked_token kept.order
      status_aside status = refl

      given :
          (order : Order)
          → locked_token order ≡ some token
          → need_unlock_coins s k fmt collector order ≡ some (s.of_amount token order.remain_locked)
      given order e = ap (λ o. of_token s k fmt collector o order.remain_locked) e

      asks :
          (kind : QuitType)
          → need_unlock_coins s k fmt collector (closed_by kind kept.order)
            ≡ some (s.of_amount token (closed_by kind kept.order).remain_locked)
      asks kind =
          let (status, same, _) = closed_by-status kind kept.order in
          let token_too : locked_token (closed_by kind kept.order) ≡ some token =
            ap locked_token same ∙ status_aside status ∙ has_token in
          given (closed_by kind kept.order) token_too
