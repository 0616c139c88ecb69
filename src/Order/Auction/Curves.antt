-- ===== src/Order/Auction/Curves.antt =====
-- Demand and supply at a price, and the cumulative sums of the auction as their values at the
-- prices of the book.
use okexchain.Base.{
  ℕ, zero, suc, ◌<◌, ◌≡◌, refl, ℤ, pos, ◌+ℤ◌, ◌≤ℤ◌, leb_ℤ, min_ℤ, List, [], ◌∷◌, arith,
  if◌then◌else◌, length, get_or, +ℤ_parts, +ℤ_assoc, +ℤ_zero, zero_+ℤ, ◌∙◌, ap, sym, +ℤ_comm,
  le-min_ℤ,
}
use okexchain.Order.Book.{DepthBook}
use okexchain.Order.Book.Sorted.{Below, IsSorted, price-lt_of_Below}
use okexchain.Order.Auction.{
  buy_sums_from, buy_amount_sum, push_sell, sell_amount_sum, executions, price_at,
}

-- What is bid at `p` or more, and what is offered at `p` or less.
unfoldable pub demand : ℤ → DepthBook → ℤ
demand p [] = pos 0
demand p (x ∷ xs) = (if leb_ℤ p x.price then x.buy_quantity else pos 0) +ℤ demand p xs

unfoldable pub supply : ℤ → DepthBook → ℤ
supply p [] = pos 0
supply p (x ∷ xs) = (if leb_ℤ x.price p then x.sell_quantity else pos 0) +ℤ supply p xs

-- The volume that can be traded at `p`.
unfoldable pub executable : ℤ → DepthBook → ℤ
executable p book = min_ℤ (demand p book) (supply p book)

-- No quantity of the book is negative.
abbrev pub IsNonneg : DepthBook → Type 0
IsNonneg [] = Unit {0}
IsNonneg (x ∷ xs) = (pos 0 ≤ℤ x.buy_quantity) × (pos 0 ≤ℤ x.sell_quantity) × IsNonneg xs

demand-Below : (p : ℤ) (book : DepthBook) → Below p book → demand p book ≡ pos 0
unfolding demand
demand-Below p [] b = refl
demand-Below p (x ∷ xs) b = ground (arith, demand-Below p xs b.1, +ℤ_zero (pos 0))

pub demand-antitone :
    (p q : ℤ) (book : DepthBook) → IsNonneg book → p ≤ℤ q → demand q book ≤ℤ demand p book
unfolding demand
demand-antitone p q [] n h = omega arith
demand-antitone p q (x ∷ xs) n h = ground (
  arith,
  demand-antitone p q xs n.2 h,
  +ℤ_parts (if leb_ℤ p x.price then x.buy_quantity else pos 0) (demand p xs),
  +ℤ_parts (if leb_ℤ q x.price then x.buy_quantity else pos 0) (demand q xs),
)

pub supply-monotone :
    (p q : ℤ) (book : DepthBook) → IsNonneg book → p ≤ℤ q → supply p book ≤ℤ supply q book
unfolding supply
supply-monotone p q [] n h = omega arith
supply-monotone p q (x ∷ xs) n h = ground (
  arith,
  supply-monotone p q xs n.2 h,
  +ℤ_parts (if leb_ℤ x.price p then x.sell_quantity else pos 0) (supply p xs),
  +ℤ_parts (if leb_ℤ x.price q then x.sell_quantity else pos 0) (supply q xs),
)

-- A buy sum is what came before and the demand at its price.
buy_sums_from-demand :
    (sum : ℤ) (book : DepthBook) (i : ℕ)
    → IsSorted book
    → i < length book
    → get_or (buy_sums_from sum book) i (pos 0) ≡ sum +ℤ demand (price_at book i) book
unfolding buy_sums_from demand
buy_sums_from-demand sum [] i s h = absurd (omega arith)
buy_sums_from-demand sum (x ∷ xs) zero s h =
    ground (arith, demand-Below x.price xs s.0, +ℤ_zero x.buy_quantity)
buy_sums_from-demand sum (x ∷ xs) (suc i) s h = ground (
  arith,
  buy_sums_from-demand (sum +ℤ x.buy_quantity) xs i s.1,
  price-lt_of_Below x.price xs i s.0,
  +ℤ_assoc sum x.buy_quantity (demand (price_at xs i) xs),
)

push_sell-head :
    (q : ℤ) (sums : List ℤ) → get_or (push_sell q sums) 0 (pos 0) ≡ get_or sums 0 (pos 0) +ℤ q
unfolding push_sell
push_sell-head q [] = sym (zero_+ℤ q)
push_sell-head q (s ∷ sums) = refl

push_sell-tail :
    (q : ℤ) (sums : List ℤ) (i : ℕ)
    → get_or (push_sell q sums) (suc i) (pos 0) ≡ get_or sums i (pos 0)
unfolding push_sell
push_sell-tail q [] i = refl
push_sell-tail q (s ∷ sums) i = refl

-- The sell sum at the head of a book that lies below `p` is the whole supply.
sell_amount_sum-Below :
    (p : ℤ) (book : DepthBook)
    → Below p book
    → get_or (sell_amount_sum book) 0 (pos 0) ≡ supply p book
unfolding sell_amount_sum supply
sell_amount_sum-Below p [] b = refl
sell_amount_sum-Below p (x ∷ xs) b = ground (
  arith,
  push_sell-head x.sell_quantity (sell_amount_sum xs),
  sell_amount_sum-Below p xs b.1,
  +ℤ_comm x.sell_quantity (supply p xs),
)

sell_amount_sum-supply :
    (book : DepthBook) (i : ℕ)
    → IsSorted book
    → i < length book
    → get_or (sell_amount_sum book) i (pos 0) ≡ supply (price_at book i) book
unfolding sell_amount_sum supply
sell_amount_sum-supply [] i s h = absurd (omega arith)
sell_amount_sum-supply (x ∷ xs) zero s h = ground (
  arith,
  push_sell-head x.sell_quantity (sell_amount_sum xs),
  sell_amount_sum-Below x.price xs s.0,
  +ℤ_comm x.sell_quantity (supply x.price xs),
)
sell_amount_sum-supply (x ∷ xs) (suc i) s h = ground (
  arith,
  push_sell-tail x.sell_quantity (sell_amount_sum xs) i,
  sell_amount_sum-supply xs i s.1,
  price-lt_of_Below x.price xs i s.0,
  zero_+ℤ (supply (price_at xs i) xs),
)

buy_amount_sum-from : (book : DepthBook) → buy_amount_sum book ≡ buy_sums_from (pos 0) book
unfolding buy_amount_sum buy_sums_from
buy_amount_sum-from [] = refl
buy_amount_sum-from (x ∷ xs) = ground (arith, zero_+ℤ x.buy_quantity)

-- At each price of a sorted book buyAmountSum is the demand there and sellAmountSum the supply.
pub amount_sums-curves :
    (book : DepthBook) (i : ℕ)
    → IsSorted book
    → i < length book
    → (get_or (buy_amount_sum book) i (pos 0) ≡ demand (price_at book i) book)
      × (get_or (sell_amount_sum book) i (pos 0) ≡ supply (price_at book i) book)
amount_sums-curves book i s h = (
  rw (buy_amount_sum-from book)
      (buy_sums_from-demand (pos 0) book i s h ∙ zero_+ℤ (demand (price_at book i) book)),
  sell_amount_sum-supply book i s h,
)

get_or-executions :
    (buys sells : List ℤ) (i : ℕ)
    → i < length buys
    → length sells ≡ length buys
    → get_or (executions buys sells) i (pos 0)
      ≡ min_ℤ (get_or buys i (pos 0)) (get_or sells i (pos 0))
unfolding executions
get_or-executions [] sells i h e = absurd (omega arith)
get_or-executions (b ∷ buys) [] i h e = absurd (omega arith)
get_or-executions (b ∷ buys) (s ∷ sells) zero h e = refl
get_or-executions (b ∷ buys) (s ∷ sells) (suc i) h e =
    get_or-executions buys sells i (omega arith) (omega arith)

length-executions :
    (buys sells : List ℤ)
    → length sells ≡ length buys
    → length (executions buys sells) ≡ length buys
unfolding executions
length-executions [] sells e = refl
length-executions (b ∷ buys) [] e = absurd (omega arith)
length-executions (b ∷ buys) (s ∷ sells) e = omega (arith, length-executions buys sells)

length-buy_sums_from : (sum : ℤ) (book : DepthBook) → length (buy_sums_from sum book) ≡ length book
unfolding buy_sums_from
length-buy_sums_from sum [] = refl
length-buy_sums_from sum (x ∷ xs) = ap suc (length-buy_sums_from (sum +ℤ x.buy_quantity) xs)

length-push_sell : (q : ℤ) (sums : List ℤ) → length (push_sell q sums) ≡ suc (length sums)
unfolding push_sell
length-push_sell q [] = refl
length-push_sell q (s ∷ sums) = refl

length-sell_amount_sum : (book : DepthBook) → length (sell_amount_sum book) ≡ length book
unfolding sell_amount_sum
length-sell_amount_sum [] = refl
length-sell_amount_sum (x ∷ xs) =
    length-push_sell x.sell_quantity (sell_amount_sum xs) ∙ ap suc (length-sell_amount_sum xs)

length-buy_amount_sum : (book : DepthBook) → length (buy_amount_sum book) ≡ length book
length-buy_amount_sum book = rw (buy_amount_sum-from book) (length-buy_sums_from (pos 0) book)

-- execRule0's executions for a book.
abbrev pub book_executions : DepthBook → List ℤ
book_executions book = executions (buy_amount_sum book) (sell_amount_sum book)

pub length-book_executions : (book : DepthBook) → length (book_executions book) ≡ length book
length-book_executions book =
    length-executions (buy_amount_sum book) (sell_amount_sum book)
      (omega (arith, length-buy_amount_sum book, length-sell_amount_sum book))
    ∙ length-buy_amount_sum book

pub book_executions-executable :
    (book : DepthBook) (i : ℕ)
    → IsSorted book
    → i < length book
    → get_or (book_executions book) i (pos 0) ≡ executable (price_at book i) book
unfolding executable
book_executions-executable book i s h =
    get_or-executions (buy_amount_sum book) (sell_amount_sum book) i
      (omega (arith, length-buy_amount_sum book))
      (omega (arith, length-buy_amount_sum book, length-sell_amount_sum book))
    ∙ rw ((amount_sums-curves book i s h).0, (amount_sums-curves book i s h).1)

demand-nonneg : (p : ℤ) (book : DepthBook) → IsNonneg book → pos 0 ≤ℤ demand p book
unfolding demand
demand-nonneg p [] n = omega arith
demand-nonneg p (x ∷ xs) n = ground (
  arith,
  demand-nonneg p xs n.2,
  +ℤ_parts (if leb_ℤ p x.price then x.buy_quantity else pos 0) (demand p xs),
)

supply-nonneg : (p : ℤ) (book : DepthBook) → IsNonneg book → pos 0 ≤ℤ supply p book
unfolding supply
supply-nonneg p [] n = omega arith
supply-nonneg p (x ∷ xs) n = ground (
  arith,
  supply-nonneg p xs n.2,
  +ℤ_parts (if leb_ℤ x.price p then x.sell_quantity else pos 0) (supply p xs),
)

pub executable-nonneg : (p : ℤ) (book : DepthBook) → IsNonneg book → pos 0 ≤ℤ executable p book
unfolding executable
executable-nonneg p book n =
    le-min_ℤ (demand p book) (supply p book) (pos 0) (demand-nonneg p book n)
      (supply-nonneg p book n)
