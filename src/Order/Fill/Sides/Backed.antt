-- ===== src/Order/Fill/Sides/Backed.antt =====
-- The book and the queues agree: what is bid at a price is what the orders of its queue still want.
use okexchain.Base.{
  ◌≡◌, refl, sym, ap, ◌∙◌, inl, inr, ℤ, pos, ◌+ℤ◌, ◌-ℤ◌, ◌≤ℤ◌, ◌<ℤ◌, ltb_ℤ, leb_ℤ, eqb_ℤ, min_ℤ,
  int_laws, +ℤ_assoc, +ℤ_zero, -ℤ_zero, -ℤ_parts, false, ◌&&◌, Bool-cases, Option-cases, List, [],
  ◌∷◌, ◌++◌, Option, some, arith, All,
}
use okexchain.Sdk.{SdkDec, DecMath}
use okexchain.Order.Types.{Order}
use okexchain.Order.Book.{DepthBook, DepthBookItem, sub_buy, is_empty_item}
use okexchain.Order.Book.Sorted.{Below, IsSorted}
use okexchain.Order.Fill.{Deal, FillKeeper, Fills, stop, fill_order_by_key}
use okexchain.Order.Fill.Laws.{IsFillable, remaining, dealt, fill_order_by_key-fills}
use okexchain.Order.Fill.Sides.{
  Queues, set_queue, Run, fill_price, fill_buy_orders, keep_unless_empty, halt, extend,
}
use okexchain.Order.Fill.Sides.Queue.{
  in_queue, queued, IsBacked, SameBut, set_queue-queued, IsBacked-SameBut, dealt-append,
}

price_above : (a p : ℤ) → a <ℤ p → eqb_ℤ a p ≡ false
price_above a p h = ground arith

min-nonneg : (a b c : ℤ) → pos 0 ≤ℤ a → c ≤ℤ b → pos 0 ≤ℤ min_ℤ a (b -ℤ c)
unfolding min_ℤ
min-nonneg a b c h k = ground (arith, -ℤ_parts b c)

min-le : (a b : ℤ) → (min_ℤ a b ≤ℤ a) × (min_ℤ a b ≤ℤ b)
unfolding min_ℤ
min-le a b = (ground arith, ground arith)

within : (a n c b : ℤ) → n ≤ℤ c → c ≤ℤ b -ℤ a → a +ℤ n ≤ℤ b
within a n c b h k = omega int_laws

covers : (n c q : ℤ) → n ≤ℤ c → c ≤ℤ q → pos 0 ≤ℤ q -ℤ n
covers n c q h k = omega int_laws

-- Every order that is queued at a price of the book can be filled.
abbrev pub IsFillableBook : DecMath → FillKeeper → Queues → DepthBook → Type 0
IsFillableBook m k queues [] = Unit {0}
IsFillableBook m k queues (item ∷ items) =
    ((queue : List Order) → queues item.price ≡ some queue → All (IsFillable m k) queue)
    × IsFillableBook m k queues items

IsFillableBook-SameBut :
    (m : DecMath) (k : FillKeeper) (price : SdkDec) (queues queues1 : Queues) (book : DepthBook)
    → Below price book
    → SameBut price queues queues1
    → IsFillableBook m k queues book
    → IsFillableBook m k queues1 book
IsFillableBook-SameBut m k price queues queues1 [] b same h = tt
IsFillableBook-SameBut m k price queues queues1 (x ∷ xs) (b, bs) same (h, hs) = (
  λ queue e. h queue (sym (same x.price (ground arith)) ∙ e),
  IsFillableBook-SameBut m k price queues queues1 xs bs same hs,
)

module _ (m : DecMath) (k : FillKeeper) (best_price max_execution : SdkDec) where
  open k use {World}

  fill_price-some :
      (price amount : SdkDec) (remain : ℤ) (queues : Queues) (w : World) (queue : List Order)
      (fills : Fills m k)
      → queues price ≡ some queue
      → fill_order_by_key m k amount best_price remain queue w ≡ some fills
      → fill_price m k best_price max_execution price amount remain queues w
        ≡ some (fills, set_queue queues price fills.queue)
  unfolding fill_price
  fill_price-some price amount remain queues w queue fills e run = rw (fill_price, e, run) refl

  -- One price, whose key may be missing.
  fill_price-lem :
      (price amount : SdkDec) (remain : ℤ) (queues : Queues) (w : World)
      → ((queue : List Order) → queues price ≡ some queue → All (IsFillable m k) queue)
      → pos 0 ≤ℤ amount
      → amount ≤ℤ queued queues price
      → (fills : Fills m k) × (queues1 : Queues) × (fill_price m k best_price max_execution price
            amount remain queues w
          ≡ some (fills, queues1))
        × (queued queues1 price ≡ queued queues price -ℤ fills.amount)
        × (fills.amount ≤ℤ amount)
        × (fills.amount ≡ dealt fills.deals)
        × SameBut price queues queues1
  unfolding fill_price dealt
  fill_price-lem price amount remain queues w fillable n le = elim (Option-cases (queues price)) [
    | inl e ↦ (
      stop m k (pos 0) (pos 0) [] w,
      queues,
      rw (fill_price, e) refl,
      sym (-ℤ_zero (queued queues price)),
      n,
      refl,
      λ p h. refl,
    )
    | inr (queue, e) ↦
        let all : queued queues price ≡ remaining queue = ap in_queue e in
        let (fills, run, left, made, most, _, _) =
          fill_order_by_key-fills m k amount best_price remain queue w (fillable queue e) n
            (rw all at le) in
        let (here, same) = set_queue-queued queues price fills.queue in
        (
          fills,
          set_queue queues price fills.queue,
          fill_price-some price amount remain queues w queue fills e run,
          here ∙ take_away _ _ _ left ∙ ap (λ n. n -ℤ fills.amount) (sym all),
          most,
          made,
          same,
        )
  ]
    where
      take_away : (a b c : ℤ) → a +ℤ b ≡ c → a ≡ c -ℤ b
      take_away a b c h = rw (sym h) (omega int_laws)

  keep_unless_empty-IsBacked :
      (queues : Queues) (item : DepthBookItem) (book : DepthBook)
      → queued queues item.price ≡ item.buy_quantity
      → pos 0 ≤ℤ item.buy_quantity
      → IsBacked queues book
      → IsBacked queues (keep_unless_empty m k best_price max_execution item book)
  keep_unless_empty-IsBacked queues item book h n hs = elim (Bool-cases (is_empty_item item)) [
    | inl t ↦ rw t hs
    | inr t ↦ rw t (h, n, hs)
  ]

  -- The loop from some point on: it does not panic, leaves the queues above alone, and adds up.
  abbrev pub Filled :
      SdkDec → Queues → DepthBook → Option (Run m k best_price max_execution) → Type 0
  Filled executed queues book result =
      (run : Run m k best_price max_execution) × (result ≡ some run)
      × IsBacked run.queues run.book
      × (run.executed ≡ executed +ℤ dealt run.deals)
      × (run.executed ≤ℤ max_execution)
      × ((p : SdkDec) → Below p book → run.queues p ≡ queues p)

  skip-Filled :
      (executed : SdkDec) (queues : Queues) (item : DepthBookItem) (items : DepthBook)
      (rest : Option (Run m k best_price max_execution))
      → Below item.price items
      → queued queues item.price ≡ item.buy_quantity
      → pos 0 ≤ℤ item.buy_quantity
      → Filled executed queues items rest
      → Filled executed queues
          (item ∷ items)
          (extend m k best_price max_execution [] (◌∷◌ item) rest)
  skip-Filled executed queues item items rest s b n (run, e, bs, made, most, same) = (
    record run { book = item ∷ run.book },
    ap (extend m k best_price max_execution [] (◌∷◌ item)) e,
    (ap in_queue (same item.price s) ∙ b, n, bs),
    made,
    most,
    λ p h. same p h.1,
  )

  rest-Filled :
      (executed amount : SdkDec) (queues queues1 : Queues) (deals : List Deal)
      (item : DepthBookItem) (items : DepthBook) (rest : Option (Run m k best_price max_execution))
      → Below item.price items
      → queued queues1 item.price ≡ item.buy_quantity -ℤ amount
      → pos 0 ≤ℤ item.buy_quantity -ℤ amount
      → amount ≡ dealt deals
      → SameBut item.price queues queues1
      → Filled (executed +ℤ amount) queues1 items rest
      → Filled executed queues (item ∷ items) (
          extend m k best_price max_execution deals
            (keep_unless_empty m k best_price max_execution (sub_buy amount item))
            rest)
  rest-Filled executed amount queues queues1 deals item items rest s b n q eq
        (run, e, bs, made, most, same) =
      (
        record run {
          deals = deals ++ run.deals;
          book = keep_unless_empty m k best_price max_execution (sub_buy amount item) run.book;
        },
        ap
            (extend m k best_price max_execution deals
              (keep_unless_empty m k best_price max_execution (sub_buy amount item)))
            e,
        keep_unless_empty-IsBacked run.queues (sub_buy amount item) run.book
            (ap in_queue (same item.price s) ∙ b) n bs,
        made
            ∙ +ℤ_assoc executed amount (dealt run.deals)
            ∙ ap (λ x. executed +ℤ (x +ℤ dealt run.deals)) q
            ∙ ap (◌+ℤ◌ executed) (sym (dealt-append deals run.deals)),
        most,
        λ p h. same p h.1 ∙ eq p (price_above item.price p h.0),
      )

  last-Filled :
      (executed amount : SdkDec) (remain : ℤ) (queues queues1 : Queues) (deals : List Deal)
      (w : World) (item : DepthBookItem) (items : DepthBook)
      → queued queues1 item.price ≡ item.buy_quantity -ℤ amount
      → pos 0 ≤ℤ item.buy_quantity -ℤ amount
      → executed +ℤ amount ≤ℤ max_execution
      → amount ≡ dealt deals
      → SameBut item.price queues queues1
      → IsBacked queues1 items
      → Filled executed queues (item ∷ items) (
          some (
            halt m k best_price max_execution deals
              (executed +ℤ amount)
              remain
              queues1
              w
              (keep_unless_empty m k best_price max_execution (sub_buy amount item) items)))
  last-Filled executed amount remain queues queues1 deals w item items b n le q eq bs = (
    halt m k best_price max_execution deals (executed +ℤ amount) remain queues1 w
        (keep_unless_empty m k best_price max_execution (sub_buy amount item) items),
    refl,
    keep_unless_empty-IsBacked queues1 (sub_buy amount item) items b n bs,
    ap (◌+ℤ◌ executed) q,
    le,
    λ p h. eq p (price_above item.price p h.0),
  )

  -- Take a sorted book where what is bid at each price is what the orders of its queue still want,
  -- and not negative, where each of these orders still wants something, but no more than at first, and
  -- is one for which the keeper's calls do not panic, and no more executed so far than the
  -- maximum. Then fillBuyOrders comes to an
  -- end without running out of orders; the book and the queues that it leaves agree in the same
  -- way; what is executed has grown by the sum of its deals and is still within the maximum; and
  -- the queues of prices above the book are as they were.
  pub fill_buy_orders-Filled :
      (executed : SdkDec) (remain : ℤ) (queues : Queues) (w : World) (book : DepthBook)
      → IsSorted book
      → IsBacked queues book
      → IsFillableBook m k queues book
      → executed ≤ℤ max_execution
      → Filled executed queues book
          (fill_buy_orders m k best_price max_execution executed remain queues w book)
  unfolding fill_buy_orders dealt
  fill_buy_orders-Filled executed remain queues w [] s b can le = (
    halt m k best_price max_execution [] executed remain queues w [],
    refl,
    tt,
    sym (+ℤ_zero executed),
    le,
    λ p h. refl,
  )
  fill_buy_orders-Filled executed remain queues w (item ∷ items) (s, ss) (b, n, bs) (can, cans) le =
      let amount = min_ℤ item.buy_quantity (max_execution -ℤ executed) in
      let (fills, queues1, run, left, most, made, same) =
        fill_price-lem item.price amount remain queues w can
          (min-nonneg item.buy_quantity max_execution executed n le)
          (rw b (min-le item.buy_quantity (max_execution -ℤ executed)).0) in
      let executed1 = executed +ℤ fills.amount in
      let remain1 = remain -ℤ fills.count in
      let below = (min-le item.buy_quantity (max_execution -ℤ executed)) in
      let bs1 = IsBacked-SameBut item.price queues queues1 items s same bs in
      let cans1 = IsFillableBook-SameBut m k item.price queues queues1 items s same cans in
      let le1 : executed1 ≤ℤ max_execution =
        within executed fills.amount amount max_execution most below.1 in
      let left1 : queued queues1 item.price ≡ item.buy_quantity -ℤ fills.amount =
        left ∙ ap (λ x. x -ℤ fills.amount) b in
      let n1 = covers fills.amount amount item.buy_quantity most below.0 in
      elim (Bool-cases (leb_ℤ best_price item.price && ltb_ℤ executed max_execution)) [
        | inr stops ↦ rw stops (
          halt m k best_price max_execution [] executed remain queues w (item ∷ items),
          refl,
          (b, n, bs),
          sym (+ℤ_zero executed),
          le,
          λ p h. refl,
        )
        | inl goes ↦ rw goes (elim (Bool-cases (eqb_ℤ amount (pos 0))) [
          | inl none_left ↦ rw none_left (
              skip-Filled executed queues item items _ s b n
                (fill_buy_orders-Filled executed remain queues w items ss bs cans le))
          | inr some_left ↦
              rw (some_left, run)
                (elim (Bool-cases (leb_ℤ remain1 (pos 0))) [
                  | inl last ↦ rw last (
                      last-Filled executed fills.amount remain1 queues queues1 fills.deals
                        fills.world item items left1 n1 le1 made same bs1)
                  | inr more ↦ rw more (
                      rest-Filled executed fills.amount queues queues1 fills.deals item items _ s
                        left1 n1 made same
                        (fill_buy_orders-Filled executed1 remain1 queues1 fills.world items ss bs1
                          cans1 le1))
                ])
        ])
      ]
