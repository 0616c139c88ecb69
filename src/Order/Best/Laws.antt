-- ===== src/Order/Best/Laws.antt =====
-- What GetBestBidAndAsk finds.
use okexchain.Base.{
  ◌≡◌, refl, ap, sym, ◌∙◌, subst, ◌⊎◌, inl, inr, ℤ, pos, ◌≤ℤ◌, ◌<ℤ◌, ltb_ℤ, Bool, false, ◌&&◌,
  Bool-cases, [], ◌∷◌, All, arith, if◌then◌else◌,
}
use okexchain.Sdk.{SdkDec}
use okexchain.Order.Book.{DepthBook, DepthBookItem}
use okexchain.Order.Best.{best_from, get_best_bid_and_ask}

-- No bid of an item is above `bid`.
abbrev pub NoBidAbove : SdkDec → DepthBookItem → Type 0
NoBidAbove bid item = (item.buy_quantity ≤ℤ pos 0) ⊎ (item.price ≤ℤ bid)

-- The bid is the price of an item with a bid.
abbrev pub IsBidden : SdkDec → DepthBook → Type 0
IsBidden bid [] = ⊥
IsBidden bid (item ∷ items) =
    ((pos 0 <ℤ item.buy_quantity) × (item.price ≡ bid)) ⊎ IsBidden bid items

better : SdkDec → DepthBookItem → SdkDec
better bid item =
    if ltb_ℤ (pos 0) item.buy_quantity && ltb_ℤ bid item.price then item.price else bid

better-ge : (bid : SdkDec) (item : DepthBookItem) → bid ≤ℤ better bid item
unfolding better
better-ge bid item = ground arith

better-NoBidAbove : (bid : SdkDec) (item : DepthBookItem) → NoBidAbove (better bid item) item
unfolding better
better-NoBidAbove bid item = elim (Bool-cases (ltb_ℤ (pos 0) item.buy_quantity)) [
  | inl t ↦ inr (ground arith)
  | inr t ↦ inl (ground arith)
]

no_ask :
    (item : DepthBookItem)
    → pos 0 ≤ℤ item.price
    → ltb_ℤ (pos 0) item.sell_quantity && ltb_ℤ item.price (pos 0) ≡ false
no_ask item h = elim (Bool-cases (ltb_ℤ (pos 0) item.sell_quantity)) [
  | inl t ↦ ground arith
  | inr t ↦ ground arith
]

le_trans : (a b c : ℤ) → a ≤ℤ b → b ≤ℤ c → a ≤ℤ c
le_trans a b c h k = omega arith

NoBidAbove-mono :
    (item : DepthBookItem) (a b : SdkDec) → a ≤ℤ b → NoBidAbove a item → NoBidAbove b item
NoBidAbove-mono item a b h (inl n) = inl n
NoBidAbove-mono item a b h (inr n) = inr (omega arith)

best_from-step :
    (bid : SdkDec) (item : DepthBookItem) (items : DepthBook)
    → pos 0 ≤ℤ item.price
    → best_from bid (pos 0) (item ∷ items) ≡ best_from (better bid item) (pos 0) items
unfolding best_from better
best_from-step bid item items h =
    ap (λ ask. best_from (better bid item) ask items) (if_false (no_ask item h))
  where
    if_false : {test : Bool} → test ≡ false → (if test then item.price else pos 0) ≡ pos 0
    if_false e = rw e refl

best_from-empty : (bid : SdkDec) → best_from bid (pos 0) [] ≡ (bid, pos 0)
unfolding best_from
best_from-empty bid = refl

better-cases :
    (bid : SdkDec) (item : DepthBookItem)
    → (better bid item ≡ bid) ⊎ ((pos 0 <ℤ item.buy_quantity) × (item.price ≡ better bid item))
unfolding better
better-cases bid item =
    elim (Bool-cases (ltb_ℤ (pos 0) item.buy_quantity && ltb_ℤ bid item.price)) [
      | inl t ↦ inr (ground arith, rw t refl)
      | inr t ↦ inl (rw t refl)
    ]

abbrev IsBest : SdkDec → DepthBook → SdkDec × SdkDec → Type 0
IsBest bid book result =
    (bid ≤ℤ result.0)
    × All (NoBidAbove result.0) book
    × (result.1 ≡ pos 0)
    × ((result.0 ≡ bid) ⊎ IsBidden result.0 book)

found_here :
    (bid r : SdkDec) (item : DepthBookItem) (items : DepthBook)
    → (better bid item ≡ bid) ⊎ ((pos 0 <ℤ item.buy_quantity) × (item.price ≡ better bid item))
    → (r ≡ better bid item) ⊎ IsBidden r items
    → (r ≡ bid) ⊎ IsBidden r (item ∷ items)
found_here bid r item items here (inr later) = inr (inr later)
found_here bid r item items (inl same) (inl e) = inl (e ∙ same)
found_here bid r item items (inr (bids, price)) (inl e) = inr (inl (bids, price ∙ sym e))

best_from-IsBest :
    (bid : SdkDec) (book : DepthBook)
    → All (λ item. pos 0 ≤ℤ item.price) book
    → IsBest bid book (best_from bid (pos 0) book)
best_from-IsBest bid [] h =
    subst (IsBest bid []) (sym (best_from-empty bid)) (omega arith, tt, refl, inl refl)
best_from-IsBest bid (item ∷ items) (h, hs) =
    let (ge, best, ask, found) = best_from-IsBest (better bid item) items hs in
    subst (IsBest bid (item ∷ items)) (sym (best_from-step bid item items h)) (
      le_trans bid (better bid item) _ (better-ge bid item) ge,
      (NoBidAbove-mono item (better bid item) _ ge (better-NoBidAbove bid item), best),
      ask,
      found_here bid _ item items (better-cases bid item) found,
    )

-- For a book with no price below zero, GetBestBidAndAsk returns as the bid the highest price of an item
-- with a bid, or zero where that is not above zero or there is none; and zero as the ask, whatever
-- is offered.
pub get_best_bid_and_ask-lem :
    (book : DepthBook)
    → All (λ item. pos 0 ≤ℤ item.price) book
    → All (NoBidAbove (get_best_bid_and_ask book).0) book
      × (((get_best_bid_and_ask book).0 ≡ pos 0) ⊎ IsBidden (get_best_bid_and_ask book).0 book)
      × ((get_best_bid_and_ask book).1 ≡ pos 0)
unfolding get_best_bid_and_ask
get_best_bid_and_ask-lem book h =
    let (_, best, ask, found) = best_from-IsBest (pos 0) book h in (best, found, ask)
