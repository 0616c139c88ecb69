-- ===== src/Order/Auction/Volume.antt =====
-- The volume of the auction among the volumes that the prices allow.
use okexchain.Base.{
  ℕ, ◌≤◌, ◌<◌, ◌≡◌, refl, ◌⊎◌, inl, inr, ℤ, pos, ◌≤ℤ◌, ◌<ℤ◌, leb_ℤ, min_ℤ, true, false, [], ◌∷◌,
  arith, length, Bool-cases, min_ℤ-le_left, min_ℤ-le_right, le-min_ℤ, eq_of_parts, zero_+ℤ,
}
use okexchain.Order.Book.{DepthBook, DepthBookItem}
use okexchain.Order.Book.Sorted.{Below, IsSorted, price-lt_of_Below, above, above-le}
use okexchain.Order.Auction.{max_execution_from, price_at}
use okexchain.Order.Auction.Curves.{
  demand, supply, executable, IsNonneg, demand-antitone, supply-monotone, book_executions,
  length-book_executions, book_executions-executable,
}
use okexchain.Order.Auction.Select.{max_execution_from-best, max_execution_from-ge}

-- Below every price of the book there is no supply.
supply-Below : (p : ℤ) (book : DepthBook) → above p book ≡ length book → supply p book ≡ pos 0
unfolding supply
supply-Below p [] h = refl
supply-Below p (x ∷ xs) h = ground (arith, supply-Below p xs, zero_+ℤ (pos 0))

supply-covers : (p q : ℤ) (book : DepthBook) → q ≤ℤ p → Below q book → supply p book ≡ supply q book
unfolding supply
supply-covers p q [] h b = refl
supply-covers p q (x ∷ xs) h b = ground (arith, supply-covers p q xs h b.1)

supply-head :
    (p : ℤ) (x : DepthBookItem) (xs : DepthBook)
    → Below x.price xs
    → leb_ℤ x.price p ≡ true
    → supply p (x ∷ xs) ≡ supply x.price (x ∷ xs)
unfolding supply
supply-head p x xs b h = ground (arith, supply-covers p x.price xs)

supply-skip :
    (p q : ℤ) (x : DepthBookItem) (xs : DepthBook)
    → leb_ℤ x.price p ≡ false
    → q <ℤ x.price
    → supply p xs ≡ supply q xs
    → supply p (x ∷ xs) ≡ supply q (x ∷ xs)
unfolding supply
supply-skip p q x xs h l e = ground arith

-- The supply at `p` is that at the next price of the book downwards, which is at most `p`.
supply-above :
    (p : ℤ) (book : DepthBook)
    → IsSorted book
    → above p book < length book
    → (price_at book (above p book) ≤ℤ p)
      × (supply p book ≡ supply (price_at book (above p book)) book)
supply-above p [] s h = absurd (omega arith)
supply-above p (x ∷ xs) s h = elim (Bool-cases (leb_ℤ x.price p)) [
  | inl here ↦ rw here (ground arith, supply-head p x xs s.0 here)
  | inr later ↦
      let inside : above p xs < length xs = ground arith in
      let (q, e) = supply-above p xs s.1 inside in
      rw later
        (q, supply-skip p _ x xs later (price-lt_of_Below x.price xs (above p xs) s.0 inside) e)
]

lt_or_eq : (a b : ℕ) → a ≤ b → (a < b) ⊎ (a ≡ b)
lt_or_eq a b h = omega arith

-- The book's largest execution.
abbrev pub largest : DepthBook → ℤ
largest book = max_execution_from (pos 0) (book_executions book)

module _ (book : DepthBook) (s : IsSorted book) (n : IsNonneg book) where
  executable_at-le : (i : ℕ) → i < length book → executable (price_at book i) book ≤ℤ largest book
  executable_at-le i h = rw (← book_executions-executable book i s h) (
      max_execution_from-ge (pos 0) (book_executions book) i
        (omega (arith, length-book_executions book)))

  executable-mono :
      (p q : ℤ) → q ≤ℤ p → supply p book ≡ supply q book → executable p book ≤ℤ executable q book
  unfolding executable
  executable-mono p q h e =
      le-min_ℤ (demand q book) (supply q book) (min_ℤ (demand p book) (supply p book))
        (omega (arith, min_ℤ-le_left (demand p book) (supply p book), demand-antitone q p book n h))
        (rw (← e) (min_ℤ-le_right (demand p book) (supply p book)))

  supply_nonpos : (p : ℤ) → supply p book ≡ pos 0 → supply p book ≤ℤ pos 0
  supply_nonpos p e = rw e (omega arith)

  pub executable-le : (p : ℤ) → executable p book ≤ℤ largest book
  executable-le p = elim (lt_or_eq (above p book) (length book) (above-le p book)) [
    | inl h ↦
        let (q, e) = supply-above p book s h in
        omega (
          arith,
          executable-mono p (price_at book (above p book)) q e,
          executable_at-le (above p book) h,
        )
    | inr e ↦
        unfold executable in
        omega (
          arith,
          min_ℤ-le_right (demand p book) (supply p book),
          supply_nonpos p (supply-Below p book e),
          max_execution_from-best (pos 0) (book_executions book),
        )
  ]

  min_ℤ-le_largest : (p : ℤ) → min_ℤ (demand p book) (supply p book) ≤ℤ largest book
  unfolding executable
  min_ℤ-le_largest p = executable-le p

  -- Between two prices of the book that attain the largest execution every price attains it.
  pub executable-between :
      (hi p lo : ℤ)
      → lo ≤ℤ p
      → p ≤ℤ hi
      → executable hi book ≡ largest book
      → executable lo book ≡ largest book
      → executable p book ≡ largest book
  unfolding executable
  executable-between hi p lo a b eh el = eq_of_parts _ _ (
      omega (
        arith,
        min_ℤ-le_largest p,
        le-min_ℤ (demand p book) (supply p book) (largest book)
            (omega (
              arith,
              rw eh at (min_ℤ-le_left (demand hi book) (supply hi book)),
              demand-antitone p hi book n b,
            ))
            (omega (
              arith,
              rw el at (min_ℤ-le_right (demand lo book) (supply lo book)),
              supply-monotone lo p book n a,
            )),
      ))
