-- ===== src/Order/Auction/Price.antt =====
-- The price that the auction chooses.
use okexchain.Base.{
  ℕ, suc, ◌<◌, ◌≡◌, refl, inl, inr, ℤ, pos, ◌≤ℤ◌, leb_ℤ, eqb_ℤ, true, false, List, [], ◌∷◌, arith,
  length, All, Bool-cases, ◌==◌, ◌∙◌, sym, max_ℤ, min_ℤ, eq_of_parts, ◌-◌,
}
use okexchain.Sdk.{DecMath}
use okexchain.Order.Book.{DepthBook, DepthBookItem}
use okexchain.Order.Book.Sorted.{IsSorted}
use okexchain.Order.Auction.{
  exec_rule0, exec_rule1, exec_rule2, exec_rule3, best_price_from_ref_price, choose_price,
  match_price, price_at, buy_amount_sum, sell_amount_sum,
}
use okexchain.Order.Auction.Curves.{
  demand, supply, executable, IsNonneg, book_executions, length-book_executions,
  book_executions-executable, executable-nonneg,
}
use okexchain.Order.Auction.Select.{
  All-map, All-get_or, max_execution_from-Stands, indexes_from-Places, indexes_from-nonempty,
  exec_rule2-selects, Places,
}
use okexchain.Order.Auction.Volume.{largest, executable-le, executable-between}

-- bestPriceFromRefPrice, called with the highest and the lowest of the prices at hand, moves the
-- reference price into the range between them, by no more than it has to.
pub best_price_from_ref_price-clamp :
    (highest lowest ref_price : ℤ)
    → lowest ≤ℤ highest
    → best_price_from_ref_price highest lowest ref_price ≡ max_ℤ lowest (min_ℤ ref_price highest)
unfolding best_price_from_ref_price max_ℤ min_ℤ
best_price_from_ref_price-clamp highest lowest ref_price h = eq_of_parts _ _ (ground arith)

module _ (book : DepthBook) (s : IsSorted book) (n : IsNonneg book) where
  -- The price at index `j` of the book attains the largest execution.
  abbrev IsBest : ℕ → Type 0
  IsBest j = (j < length book) × (executable (price_at book j) book ≡ largest book)

  IsBest-Places : (j : ℕ) → Places 0 (largest book) (book_executions book) j → IsBest j
  IsBest-Places j (_, h, e) =
      let within : j < length book = omega (arith, length-book_executions book) in
      let same : j - 0 ≡ j = omega arith in
      (within, sym (book_executions-executable book j s within) ∙ rw same at e)

  rule1-IsBest : All IsBest (exec_rule1 (largest book) (book_executions book))
  unfolding exec_rule1
  rule1-IsBest =
      All-map _ _ _ IsBest-Places (indexes_from-Places 0 (largest book) (book_executions book))

  rule1-nonempty :
      eqb_ℤ (largest book) (pos 0) ≡ false
      → 0 < length (exec_rule1 (largest book) (book_executions book))
  unfolding exec_rule1
  rule1-nonempty h = elim (max_execution_from-Stands (pos 0) (book_executions book)) [
    | inl e ↦ ground arith
    | inr (i, l, e) ↦ indexes_from-nonempty 0 i (largest book) (book_executions book) l e
  ]

  clamp-IsBest :
      (hi lo ref_price : ℤ)
      → executable hi book ≡ largest book
      → executable lo book ≡ largest book
      → executable (best_price_from_ref_price hi lo ref_price) book ≡ largest book
  unfolding best_price_from_ref_price
  clamp-IsBest hi lo ref_price eh el = elim (Bool-cases (leb_ℤ hi ref_price)) [
    | inl a ↦ rw a eh
    | inr a ↦ elim (Bool-cases (leb_ℤ ref_price lo)) [
      | inl b ↦ rw (a, b) el
      | inr b ↦
          rw (a, b)
            (executable-between book s n hi ref_price lo (ground arith) (ground arith) eh el)
    ]
  ]

  choose_price-IsBest :
      (m : DecMath) (precision ref_price : ℤ) (indexes : List ℕ)
      → 0 < length indexes
      → All IsBest indexes
      → executable (choose_price m book precision ref_price indexes) book ≡ largest book
  unfolding choose_price exec_rule3
  choose_price-IsBest m precision ref_price indexes h a = elim (Bool-cases (length indexes == 1)) [
    | inl one ↦ rw one (All-get_or IsBest indexes 0 0 a h).1
    | inr many ↦
        let (a2, h2) =
          exec_rule2-selects IsBest (buy_amount_sum book) (sell_amount_sum book) indexes h a in
        elim (Bool-cases
          (length (exec_rule2 (buy_amount_sum book) (sell_amount_sum book) indexes).0 == 1)) [
            | inl one ↦ rw (many, one) (All-get_or IsBest _ 0 0 a2 h2).1
            | inr more ↦
                rw (many, more)
                  (clamp-IsBest _ _ _ (All-get_or IsBest _ 0 0 a2 h2).1
                    (All-get_or IsBest _ _ 0 a2 (omega arith)).1)
          ]
  ]

executable-empty : (p : ℤ) → executable p [] ≡ pos 0
unfolding executable demand supply min_ℤ
executable-empty p = refl

module _ (m : DecMath) (x : DepthBookItem) (xs : DepthBook) (precision ref_price : ℤ) where
  nonempty : (suc (length xs) == 0) ≡ false
  nonempty = ground arith

  match_price-idle :
      eqb_ℤ (largest (x ∷ xs)) (pos 0) ≡ true
      → match_price m (x ∷ xs) precision ref_price ≡ (ref_price, largest (x ∷ xs))
  unfolding match_price exec_rule0
  match_price-idle h = rw (nonempty, h)

  match_price-trades :
      eqb_ℤ (largest (x ∷ xs)) (pos 0) ≡ false
      → match_price m (x ∷ xs) precision ref_price ≡ (
        choose_price m
            (x ∷ xs)
            precision
            ref_price
            (exec_rule1 (largest (x ∷ xs)) (book_executions (x ∷ xs))),
        largest (x ∷ xs),
      )
  unfolding match_price exec_rule0
  match_price-trades h = rw (nonempty, h)

  idle-executable :
      IsSorted (x ∷ xs)
      → IsNonneg (x ∷ xs)
      → eqb_ℤ (largest (x ∷ xs)) (pos 0) ≡ true
      → executable ref_price (x ∷ xs) ≡ largest (x ∷ xs)
  idle-executable s n h =
      eq_of_parts _ _ (
        ground
          (arith, executable-le (x ∷ xs) s n ref_price, executable-nonneg ref_price (x ∷ xs) n))

-- In a sorted book with no negative quantity the auction's volume is the largest that can be
-- traded at any price at all, in the book or not, and it is what can be traded at the price that
-- the auction chooses, by whichever of its rules.
pub match_price-largest :
    (m : DecMath) (book : DepthBook) (precision ref_price : ℤ)
    → IsSorted book
    → IsNonneg book
    → let (price, volume) = match_price m book precision ref_price in
      (executable price book ≡ volume) × ((p : ℤ) → executable p book ≤ℤ volume)
match_price-largest m [] precision ref_price s n =
    unfold match_price in (executable-empty (pos 0), λ p. rw (executable-empty p) (omega arith))
match_price-largest m (x ∷ xs) precision ref_price s n =
    elim (Bool-cases (eqb_ℤ (largest (x ∷ xs)) (pos 0))) [
      | inl idle ↦
          rw (match_price-idle m x xs precision ref_price idle)
            (idle-executable m x xs precision ref_price s n idle, executable-le (x ∷ xs) s n)
      | inr trades ↦ rw (match_price-trades m x xs precision ref_price trades) (
        choose_price-IsBest (x ∷ xs) s n m precision ref_price _
            (rule1-nonempty (x ∷ xs) s n trades) (rule1-IsBest (x ∷ xs) s n),
        executable-le (x ∷ xs) s n,
      )
    ]
