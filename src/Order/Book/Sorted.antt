-- ===== src/Order/Book/Sorted.antt =====
-- The order of the prices in a depth book, and where the binary search for a price ends.
use okexchain.Base.{
  ℕ, zero, suc, ◌≤◌, ◌<◌, ◌≡◌, ℤ, ◌≤ℤ◌, ◌<ℤ◌, leb_ℤ, true, false, [], ◌∷◌, arith, if◌then◌else◌,
  length, get_or, search-IsFirst, IsFirst-unique,
}
use okexchain.Order.Book.{DepthBook, zero_item, at_or_below, price_index}

-- Every price of the book is below `p`.
abbrev pub Below : ℤ → DepthBook → Type 0
Below p [] = Unit {0}
Below p (x ∷ xs) = (x.price <ℤ p) × Below p xs

-- Prices fall along the book, so no price stands twice.
abbrev pub IsSorted : DepthBook → Type 0
IsSorted [] = Unit {0}
IsSorted (x ∷ xs) = Below x.price xs × IsSorted xs

pub Below-mono : (p q : ℤ) (book : DepthBook) → p ≤ℤ q → Below p book → Below q book
Below-mono p q [] h b = tt
Below-mono p q (x ∷ xs) h b = (omega arith, Below-mono p q xs h b.1)

pub price-lt_of_Below :
    (p : ℤ) (book : DepthBook) (i : ℕ)
    → Below p book
    → i < length book
    → (get_or book i zero_item).price <ℤ p
price-lt_of_Below p [] i b h = absurd (omega arith)
price-lt_of_Below p (x ∷ xs) zero b h = b.0
price-lt_of_Below p (x ∷ xs) (suc i) b h = price-lt_of_Below p xs i b.1 (omega arith)

pub price-le :
    (book : DepthBook) (i j : ℕ)
    → IsSorted book
    → i ≤ j
    → j < length book
    → (get_or book j zero_item).price ≤ℤ (get_or book i zero_item).price
price-le [] i j s h l = absurd (omega arith)
price-le (x ∷ xs) zero zero s h l = omega arith
price-le (x ∷ xs) zero (suc j) s h l =
    omega (arith, price-lt_of_Below x.price xs j s.0 (omega arith))
price-le (x ∷ xs) (suc i) zero s h l = absurd (omega arith)
price-le (x ∷ xs) (suc i) (suc j) s h l = price-le xs i j s.1 (omega arith) (omega arith)

-- How many prices at the head of the book are above `p`.
abbrev pub above : ℤ → DepthBook → ℕ
above p [] = 0
above p (x ∷ xs) = if leb_ℤ x.price p then 0 else suc (above p xs)

pub above-le : (p : ℤ) (book : DepthBook) → above p book ≤ length book
above-le p [] = omega arith
above-le p (x ∷ xs) = ground (arith, above-le p xs)

above-before : (p : ℤ) (book : DepthBook) (k : ℕ) → k < above p book → at_or_below p book k ≡ false
above-before p [] k h = absurd (omega arith)
above-before p (x ∷ xs) zero h = ground arith
above-before p (x ∷ xs) (suc k) h = above-before p xs k (ground arith)

above-found :
    (p : ℤ) (book : DepthBook)
    → above p book < length book
    → at_or_below p book (above p book) ≡ true
above-found p [] h = absurd (omega arith)
above-found p (x ∷ xs) h = ground (arith, above-found p xs)

-- The binary search finds the place where a scan from the head stops.
pub price_index-above :
    (p : ℤ) (book : DepthBook) → IsSorted book → price_index p book ≡ above p book
unfolding price_index
price_index-above p book s =
    IsFirst-unique (at_or_below p book) (length book) _ _
      (search-IsFirst (at_or_below p book) (length book)
        (λ a b h l e. ground (arith, price-le book a b s h l)))
      (record {
        within = above-le p book;
        before = above-before p book;
        found = above-found p book;
      })
