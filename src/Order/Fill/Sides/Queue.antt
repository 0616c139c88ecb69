-- ===== src/Order/Fill/Sides/Queue.antt =====
-- The queues of orders by price, and when a book agrees with them.
use okexchain.Base.{
  ◌≡◌, refl, sym, ap, ◌∙◌, ℤ, pos, ◌+ℤ◌, ◌≤ℤ◌, eqb_ℤ, +ℤ_assoc, zero_+ℤ, true, false, List, [], ◌∷◌,
  ◌++◌, Option, some, none, arith,
}
use okexchain.Sdk.{SdkDec}
use okexchain.Order.Types.{Order}
use okexchain.Order.Book.{DepthBook}
use okexchain.Order.Book.Sorted.{Below}
use okexchain.Order.Fill.{Deal}
use okexchain.Order.Fill.Laws.{remaining, dealt}
use okexchain.Order.Fill.Sides.{Queues, set_queue}

-- What the orders queued at a price still want.
abbrev pub in_queue : Option (List Order) → SdkDec
in_queue none = pos 0
in_queue (some queue) = remaining queue

abbrev pub queued : Queues → SdkDec → SdkDec
queued queues price = in_queue (queues price)

abbrev pub IsBacked : Queues → DepthBook → Type 0
IsBacked queues [] = Unit {0}
IsBacked queues (x ∷ xs) =
    (queued queues x.price ≡ x.buy_quantity) × (pos 0 ≤ℤ x.buy_quantity) × IsBacked queues xs

-- Queues that agree at every price but one.
abbrev pub SameBut : SdkDec → Queues → Queues → Type 0
SameBut price queues queues1 = (p : SdkDec) → eqb_ℤ price p ≡ false → queues1 p ≡ queues p

eqb_ℤ_refl : (a : ℤ) → eqb_ℤ a a ≡ true
eqb_ℤ_refl a = ground arith

pub set_queue-queued :
    (queues : Queues) (price : SdkDec) (queue : List Order)
    → (queued (set_queue queues price queue) price ≡ remaining queue)
      × SameBut price queues (set_queue queues price queue)
unfolding remaining
set_queue-queued queues price [] =
    let here : set_queue queues price [] price ≡ none = rw (eqb_ℤ_refl price) refl in
    (ap in_queue here, λ p h. rw h refl)
set_queue-queued queues price (order ∷ orders) =
    let queue = order ∷ orders in
    let here : set_queue queues price queue price ≡ some queue = rw (eqb_ℤ_refl price) refl in
    (ap in_queue here, λ p h. rw h refl)

pub IsBacked-SameBut :
    (price : SdkDec) (queues queues1 : Queues) (book : DepthBook)
    → Below price book
    → SameBut price queues queues1
    → IsBacked queues book
    → IsBacked queues1 book
IsBacked-SameBut price queues queues1 [] b same h = tt
IsBacked-SameBut price queues queues1 (x ∷ xs) (b, bs) same (h, n, hs) = (
  ap in_queue (same x.price (ground arith)) ∙ h,
  n,
  IsBacked-SameBut price queues queues1 xs bs same hs,
)

pub dealt-append : (xs ys : List Deal) → dealt (xs ++ ys) ≡ dealt xs +ℤ dealt ys
unfolding dealt
dealt-append [] ys = sym (zero_+ℤ (dealt ys))
dealt-append (x ∷ xs) ys =
    ap (◌+ℤ◌ x.quantity) (dealt-append xs ys) ∙ sym (+ℤ_assoc x.quantity (dealt xs) (dealt ys))
