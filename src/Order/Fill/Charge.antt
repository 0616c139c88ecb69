-- ===== src/Order/Fill/Charge.antt =====
-- What a fill does to the accounts: balanceAccount and chargeFee of
-- x/order/match/periodicauction/fill.go, GetDealFee of x/order/keeper/fee.go, and BalanceAccount and
-- SendFeesToProductOwner of x/order/keeper/keeper.go, over the locks of x/token.
use Prim.Native.String.{String}
use okexchain.Base.{
  ◌≡◌, refl, ap, ℤ, pos, ◌/◌, ◌≤ℤ◌, ltb_ℤ, Bool, true, false, Option, none, some, if◌then◌else◌,
  Result, ok, err,
}
use okexchain.Sdk.{SdkDec, DecMath, Coin}
use okexchain.Sdk.Sets.{CoinSets, ModuleBank}
use okexchain.Token.{Locks, quantity_lock, fee_lock, give_output, take_input, TokenError}
use okexchain.Order.Types.{Order, Side, is_buy, base_token, quote_token, locked_token}
use okexchain.Order.Fill.{FillKeeper, is_filled, ◌>>=◌}
use okexchain.Order.Keeper.{
  Formats, KeptOrder, of_token, need_unlock_coins, get_order_new_fee, get_order_cost_fee,
  order_unlock_coins, add_collected_fees,
}
use okexchain.Order.Keeper.Fees.{GrowsWithBlocks, SubtractsWhatItHolds, get_order_cost_fee-bounds}

-- What a block's matching reads: the height, the rate of the fee and the last prices of x/order, the
-- owners of the products and the addresses of their operators, of x/dex, the fee fields of an order by
-- its id, and the transfer between accounts. Coins print as a text.
pub record Market {m : DecMath} (s : CoinSets m) (k : ModuleBank s) : Type 0 where
  pub height : ℤ
  pub native : String
  pub trade_fee_rate : SdkDec
  pub last_price : String → SdkDec
  pub owner : String → Option String
  pub handling_fee_address : String → Option String
  pub fee_of : String → Coin × ℤ
  pub send_coins : String → String → s.Coins → k.Bank → Option k.Bank
  pub coins_text : s.Coins → String

-- A chain returns where its first step does, and the rest does after any step.
chained :
    {A B : Type 0} (o : Option A) (rest : A → Option B) {a : A}
    → o ≡ some a
    → ((x : A) → (b : B) × (rest x ≡ some b))
    → (b : B) × ((o >>= rest) ≡ some b)
chained none rest e next = cc
chained (some x) rest e next = next x

either :
    {A : Type 0} (t : Bool) {o o' : Option A} {a a' : A}
    → o ≡ some a
    → o' ≡ some a'
    → (b : A) × ((if t then o else o') ≡ some b)
either true {o} {o'} {a} {a'} e e' = (a, e)
either false {o} {o'} {a} {a'} e e' = (a', e')

module _ {m : DecMath} (s : CoinSets m) (k : ModuleBank s) (fmt : Formats) (collector : String)
    (market : Market s k) where
  open market use {
    height, native, trade_fee_rate, last_price, owner, handling_fee_address, fee_of, send_coins,
    coins_text,
  }

  abbrev pub kept_of : Order → KeptOrder
  kept_of order = record {
    order = order;
    fee_per_block = (fee_of order.order_id).0;
    order_expire_blocks = (fee_of order.order_id).1;
  }

  -- The two steps of BalanceAccount of x/token, of which an error is logged and leaves what has been
  -- written.
  abbrev pub input_or_left : Result TokenError (Locks s k) → Locks s k → Locks s k
  input_or_left (err e) locks = locks
  input_or_left (ok locks') locks = locks'

  abbrev pub output_or_left :
      String → s.Coins → Result TokenError (Locks s k) → Locks s k → Locks s k
  output_or_left addr input (err e) locks = locks
  output_or_left addr input (ok locks1) locks =
      input_or_left (take_input s k addr input locks1) locks1

  -- BalanceAccount
  unfoldable pub order_balance_account : String → s.Coins → s.Coins → Locks s k → Locks s k
  order_balance_account addr output input locks =
      output_or_left addr input (give_output s k addr output locks) locks

  -- balanceAccount; `none` is the panic of a product without a second token.
  unfoldable pub balance_order : Order → SdkDec → SdkDec → Locks s k → Option (Locks s k)
  balance_order order price quantity locks = do
    quote ← quote_token order.product
    let bases : s.Coins = s.of_amount (base_token order.product) quantity
    let quotes : s.Coins = s.of_amount quote (m.mul price quantity)
    some (
        if is_buy order.side
        then order_balance_account order.sender quotes bases locks
        else order_balance_account order.sender bases quotes locks)

  -- The unlock in fillOrder
  unfoldable pub unlock_rest : Order → Locks s k → Option (Locks s k)
  unlock_rest order locks = do
    need ← need_unlock_coins s k fmt collector order
    some (order_unlock_coins s k fmt collector order.sender need quantity_lock locks)

  -- "0.00000001"
  abbrev pub min_fee : SdkDec
  min_fee = pos (m.unit / 100000000)

  -- GetDealFee
  unfoldable pub get_deal_fee : Order → SdkDec → Option s.Coins
  get_deal_fee order amount =
      let symbol : Option String =
        if is_buy order.side then some (base_token order.product) else quote_token order.product in
      let quantity =
        if is_buy order.side then amount else m.mul amount (last_price order.product) in
      let fee = m.mul quantity trade_fee_rate in
      of_token s k fmt collector symbol (if ltb_ℤ min_fee fee then fee else min_fee)

  -- GetProductFeeReceiver
  abbrev pub receiver_of : Option String → Option String
  receiver_of none = none
  receiver_of (some account) = elim (handling_fee_address account) [
    | none ↦ some account
    | some address ↦ some address
  ]

  abbrev pub sent_or_not : String → Locks s k → Option k.Bank → Locks s k × String
  sent_or_not to locks none = (locks, "")
  sent_or_not to locks (some bank) = (record locks { bank = bank }, to)

  abbrev pub send_to_receiver : Option String → s.Coins → String → Locks s k → Locks s k × String
  send_to_receiver none coins from locks = (locks, "")
  send_to_receiver (some to) coins from locks =
      sent_or_not to locks (send_coins from to coins locks.bank)

  -- SendFeesToProductOwner, whose error chargeFee passes over
  unfoldable pub send_fees_to_product_owner :
      s.Coins → String → String → Locks s k → Locks s k × String
  send_fees_to_product_owner coins from product locks =
      if s.is_zero coins
      then (locks, "")
      else send_to_receiver (receiver_of (owner product)) coins from locks

  -- What chargeFee does to the fee of an order that is filled; `none` is the panic of the difference.
  unfoldable pub free_fee : Order → Locks s k → Option (Locks s k)
  free_fee order locks = do
    let locked_fee : s.Coins = get_order_new_fee s k fmt collector (kept_of order)
    let fee : s.Coins = get_order_cost_fee s k fmt collector native height (kept_of order)
    receive_fee ← s.sub locked_fee fee
    some (
        add_collected_fees s k fmt collector fee order.sender
          (order_unlock_coins s k fmt collector order.sender locked_fee fee_lock locks))

  -- chargeFee
  unfoldable pub charge_fee : Order → SdkDec → Locks s k → Option (Locks s k × (String × String))
  charge_fee order quantity locks = do
    freed ← if is_filled m order.status then free_fee order locks else some locks
    deal_fee ← get_deal_fee order quantity
    let (paid, receiver) = send_fees_to_product_owner deal_fee order.sender order.product freed
    some (paid, (coins_text deal_fee, receiver))

  -- The product has two tokens, and the fee per block and the number of blocks are not negative.
  pub record Pays (product : String) (side : Side) (id : String) : Type 0 where
    pub quote : String
    pub has_quote : quote_token product ≡ some quote
    pub rich : pos 0 ≤ℤ (fee_of id).0.amount
    pub some_blocks : pos 0 ≤ℤ (fee_of id).1

  module _ (grows : GrowsWithBlocks s k fmt collector) (subtracts : SubtractsWhatItHolds s) where
    pub balance_order-returns :
        (order : Order) (price quantity : SdkDec) (locks : Locks s k)
        → Pays order.product order.side order.order_id
        → (locks' : Locks s k) × (balance_order order price quantity locks ≡ some locks')
    unfolding balance_order
    balance_order-returns order price quantity locks pays =
        chained (quote_token order.product) _ pays.has_quote (λ quote. (_, refl))

    locked_token-returns :
        (order : Order)
        → Pays order.product order.side order.order_id
        → (token : String) × (locked_token order ≡ some token)
    unfolding locked_token
    locked_token-returns order pays = either (is_buy order.side) pays.has_quote refl

    pub unlock_rest-returns :
        (order : Order) (locks : Locks s k)
        → Pays order.product order.side order.order_id
        → (locks' : Locks s k) × (unlock_rest order locks ≡ some locks')
    unfolding unlock_rest need_unlock_coins
    unlock_rest-returns order locks pays =
        let (token, e) = locked_token-returns order pays in
        chained (need_unlock_coins s k fmt collector order) _
          (ap (λ o. of_token s k fmt collector o order.remain_locked) e) (λ need. (_, refl))

    free_fee-returns :
        (order : Order) (locks : Locks s k)
        → Pays order.product order.side order.order_id
        → (locks' : Locks s k) × (free_fee order locks ≡ some locks')
    unfolding free_fee
    free_fee-returns order locks pays =
        let new_fee = get_order_new_fee s k fmt collector (kept_of order) in
        let fee = get_order_cost_fee s k fmt collector native height (kept_of order) in
        let (left, e) = subtracts new_fee fee (λ d.
          (get_order_cost_fee-bounds s k fmt collector native grows height (kept_of order) d
            pays.rich pays.some_blocks).1) in
        chained (s.sub new_fee fee) _ e (λ receive_fee. (_, refl))

    priced :
        (o : Option String) (amount : SdkDec) {symbol : String}
        → o ≡ some symbol
        → (coins : s.Coins) × (of_token s k fmt collector o amount ≡ some coins)
    priced none amount e = cc
    priced (some symbol) amount e = (_, refl)

    get_deal_fee-returns :
        (order : Order) (amount : SdkDec)
        → Pays order.product order.side order.order_id
        → (fee : s.Coins) × (get_deal_fee order amount ≡ some fee)
    unfolding get_deal_fee
    get_deal_fee-returns order amount pays =
        let (symbol, e) =
          either (is_buy order.side) {o = some (base_token order.product)}
            {o' = quote_token order.product} refl pays.has_quote in
        priced
          (if is_buy order.side then some (base_token order.product) else quote_token order.product)
          _ e

    pub charge_fee-returns :
        (order : Order) (quantity : SdkDec) (locks : Locks s k)
        → Pays order.product order.side order.order_id
        → (out : Locks s k × (String × String)) × (charge_fee order quantity locks ≡ some out)
    unfolding charge_fee
    charge_fee-returns order quantity locks pays =
        let (freed, e) =
          either (is_filled m order.status) {o = free_fee order locks} {o' = some locks}
            (free_fee-returns order locks pays).1 refl in
        let (fee, e') = get_deal_fee-returns order quantity pays in
        chained (if is_filled m order.status then free_fee order locks else some locks) _ e
          (λ freed. chained (get_deal_fee order quantity) _ e' (λ deal_fee. (_, refl)))

    -- The accounts of the order module as a fill sees them
    abbrev pub order_fill_keeper : FillKeeper
    order_fill_keeper = record {
      World = Locks s k;
      Pays = Pays;
      balance_order = balance_order;
      unlock_rest = unlock_rest;
      charge_fee = charge_fee;
      balance_order-returns = balance_order-returns;
      unlock_rest-returns = unlock_rest-returns;
      charge_fee-returns = charge_fee-returns;
    }
