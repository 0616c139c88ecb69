-- ===== src/Order/Auction/Offset.antt =====
-- execRule3 reads the imbalance of an index at the index less an offset, the first of execRule1's
-- indexes.
use okexchain.Base.{
  ℕ, suc, ◌-◌, ◌≤◌, ◌<◌, ◌≡◌, refl, inl, inr, ℤ, pos, ◌-ℤ◌, eqb_ℤ, false, List, [], ◌∷◌, map, arith,
  length, get_or, All, Bool-cases, ◌∙◌, sym, ap,
}
use okexchain.Sdk.{SdkDec, DecMath}
use okexchain.Order.Book.{DepthBook}
use okexchain.Order.Book.Sorted.{IsSorted, price-le}
use okexchain.Order.Auction.{
  indexes_from, exec_rule1, exec_rule2, imbalance_at, first_index, last_index, price_at, exec_rule3,
  best_price_from_ref_price, market_ref_price, buy_amount_sum, sell_amount_sum,
}
use okexchain.Order.Auction.Curves.{
  demand, supply, IsNonneg, book_executions, length-book_executions, book_executions-executable,
  amount_sums-curves,
}
use okexchain.Order.Auction.Select.{
  All-map, All-get_or, Places, indexes_from-Places, exec_rule2-All, All-and, length-map, eqb_ℤ→eq,
  eqb_ℤ-self,
}
use okexchain.Order.Auction.Volume.{largest, executable-between}

-- Between two entries that equal `best` every entry does.
abbrev IsConvex : ℤ → List ℤ → Type 0
IsConvex best es =
    (a b c : ℕ)
    → a ≤ b
    → b ≤ c
    → c < length es
    → get_or es a (pos 0) ≡ best
    → get_or es c (pos 0) ≡ best
    → get_or es b (pos 0) ≡ best

-- Each index is one more than that before it.
abbrev AreConsecutive : List ℕ → Type 0
AreConsecutive [] = Unit {0}
AreConsecutive (i ∷ []) = Unit {0}
AreConsecutive (i ∷ j ∷ js) = (j ≡ suc i) × AreConsecutive (j ∷ js)

IsConvex-tail : (best e : ℤ) (es : List ℤ) → IsConvex best (e ∷ es) → IsConvex best es
IsConvex-tail best e es h a b c p q l x y =
    h (suc a) (suc b) (suc c) (omega arith) (omega arith) (omega arith) x y

-- After an entry that differs from `best` no later one equals it, if an earlier one did.
indexes_from-gap :
    (i : ℕ) (best e e' : ℤ) (es : List ℤ) (found : List ℕ)
    → IsConvex best (e ∷ e' ∷ es)
    → e ≡ best
    → eqb_ℤ e' best ≡ false
    → All (Places i best es) found
    → found ≡ []
indexes_from-gap i best e e' es [] h p q a = refl
indexes_from-gap i best e e' es (j ∷ js) h p q ((u, v, w), _) =
    let same : e' ≡ best =
      h 0 1 (suc (suc (j - i))) (omega arith) (omega arith) (omega arith) p w in
    absurd (ground (arith, eqb_ℤ-self best))

indexes_from-consecutive :
    (i : ℕ) (best : ℤ) (es : List ℤ) → IsConvex best es → AreConsecutive (indexes_from i best es)
unfolding indexes_from
indexes_from-consecutive i best [] h = tt
indexes_from-consecutive i best (e ∷ []) h = elim (Bool-cases (eqb_ℤ e best)) [
  | inl p ↦ rw p tt
  | inr p ↦ rw p tt
]
indexes_from-consecutive i best (e ∷ e' ∷ es) h =
    let rest = indexes_from-consecutive (suc i) best (e' ∷ es) (IsConvex-tail best e (e' ∷ es) h) in
    elim (Bool-cases (eqb_ℤ e best)) [
      | inr p ↦ rw p rest
      | inl p ↦ elim (Bool-cases (eqb_ℤ e' best)) [
        | inl q ↦ rw (p, q) (refl, rw q at rest)
        | inr q ↦
            rw
              (
                p,
                q,
                indexes_from-gap (suc (suc i)) best e e' es (indexes_from (suc (suc i)) best es) h
                    (eqb_ℤ→eq e best p) q (indexes_from-Places (suc (suc i)) best es),
              )
              tt
      ]
    ]

-- The value for an index stands at the index less the first.
abbrev Reads : (ℕ → ℤ) → List ℕ → ℕ → Type 0
Reads f indexes j =
    let first = first_index indexes in
    (first ≤ j) × (j - first < length indexes) × (get_or (map f indexes) (j - first) (pos 0) ≡ f j)

Reads-cons :
    (f : ℕ → ℤ) (i j : ℕ) (js : List ℕ) (k : ℕ)
    → j ≡ suc i
    → Reads f (j ∷ js) k
    → Reads f (i ∷ j ∷ js) k
Reads-cons f i j js k e (a, b, c) =
    let shift : k - i ≡ suc (k - j) = omega arith in (omega arith, omega arith, rw shift c)

Reads-consecutive :
    (f : ℕ → ℤ) (indexes : List ℕ) → AreConsecutive indexes → All (Reads f indexes) indexes
Reads-consecutive f [] h = tt
Reads-consecutive f (i ∷ []) h =
    let first : i - i ≡ 0 = omega arith in ((omega arith, omega arith, rw first refl), tt)
Reads-consecutive f (i ∷ j ∷ js) h =
    let first : i - i ≡ 0 = omega arith in
    (
      (omega arith, omega arith, rw first refl),
      All-map _ _ (j ∷ js) (λ k. Reads-cons f i j js k h.0) (Reads-consecutive f (j ∷ js) h.1),
    )

module _ (book : DepthBook) (s : IsSorted book) (n : IsNonneg book) where
  book_executions-IsConvex : IsConvex (largest book) (book_executions book)
  book_executions-IsConvex a b c p q l x y =
      let top : c < length book = omega (arith, length-book_executions book) in
      book_executions-executable book b s (omega arith)
      ∙ executable-between book s n (price_at book a) (price_at book b) (price_at book c)
          (price-le book b c s q top) (price-le book a b s p (omega arith))
          (sym (book_executions-executable book a s (omega arith)) ∙ x)
          (sym (book_executions-executable book c s (omega arith)) ∙ y)

  rule1-consecutive : AreConsecutive (exec_rule1 (largest book) (book_executions book))
  unfolding exec_rule1
  rule1-consecutive =
      indexes_from-consecutive 0 (largest book) (book_executions book) book_executions-IsConvex

  -- What the book's rules select, in the order of the code.
  abbrev pub best_indexes : List ℕ
  best_indexes = exec_rule1 (largest book) (book_executions book)

  abbrev pub balanced : List ℕ × List ℤ
  balanced = exec_rule2 (buy_amount_sum book) (sell_amount_sum book) best_indexes

  within : All (λ j. j < length book) best_indexes
  unfolding exec_rule1
  within =
      All-map _ _ _ (λ j p. omega (arith, length-book_executions book, p.1))
        (indexes_from-Places 0 (largest book) (book_executions book))

  -- Demand less supply at the price of index `j`.
  abbrev pub pressure : ℕ → ℤ
  pressure j = demand (price_at book j) book -ℤ supply (price_at book j) book

  imbalance_at-pressure :
      (j : ℕ)
      → j < length book
      → imbalance_at (buy_amount_sum book) (sell_amount_sum book) j ≡ pressure j
  unfolding imbalance_at
  imbalance_at-pressure j h = let (buys, sells) = amount_sums-curves book j s h in rw (buys, sells)

  -- Where execRule3 reads for index `j`, it reads the imbalance at the price of that index.
  abbrev pub ReadsPressure : ℕ → Type 0
  ReadsPressure j =
      let (_, imbalance) = balanced in
      (j - first_index best_indexes < length imbalance)
      × (get_or imbalance (j - first_index best_indexes) (pos 0) ≡ pressure j)

  balanced-imbalance :
      balanced.1 ≡ map (imbalance_at (buy_amount_sum book) (sell_amount_sum book)) best_indexes
  unfolding exec_rule2
  balanced-imbalance = refl

  balanced-ReadsPressure : All ReadsPressure balanced.0
  balanced-ReadsPressure =
      let f = imbalance_at (buy_amount_sum book) (sell_amount_sum book) in
      exec_rule2-All ReadsPressure (buy_amount_sum book) (sell_amount_sum book) best_indexes (
        All-map _ _ best_indexes
          (λ j h. (
            omega (arith, ap length balanced-imbalance, length-map f best_indexes, h.1.1),
            rw balanced-imbalance (h.1.2 ∙ imbalance_at-pressure j h.0),
          ))
          (All-and _ _ best_indexes within (Reads-consecutive f best_indexes rule1-consecutive)))

  -- Where execRule3 reads for an index is inside the list of imbalances.
  abbrev pub ReadsInside : ℕ → Type 0
  ReadsInside j = j - first_index best_indexes < length balanced.1

  -- In a sorted book with no negative quantity, and where execRule2 leaves at least one index,
  -- execRule3 reads inside the list of imbalances for all the indexes that execRule2 leaves, and it
  -- moves the reference price by the demand less the supply at the first and at the last of their
  -- prices, into the range between these prices.
  pub exec_rule3-reads :
      (m : DecMath) (ref_price : SdkDec) (precision : ℤ)
      → 0 < length balanced.0
      → All ReadsInside balanced.0
        × (exec_rule3 m book (first_index best_indexes) ref_price precision balanced.0 balanced.1
            ≡ best_price_from_ref_price
                (price_at book (first_index balanced.0))
                (price_at book (last_index balanced.0))
                (market_ref_price m ref_price precision
                  (pressure (first_index balanced.0))
                  (pressure (last_index balanced.0))))
  unfolding exec_rule3
  exec_rule3-reads m ref_price precision some_left =
      let first = All-get_or ReadsPressure balanced.0 0 0 balanced-ReadsPressure some_left in
      let last =
        All-get_or ReadsPressure balanced.0 (length balanced.0 - 1) 0 balanced-ReadsPressure
          (omega arith) in
      (
        All-map ReadsPressure ReadsInside balanced.0 (λ j h. h.0) balanced-ReadsPressure,
        ap
              (λ x.
                best_price_from_ref_price (price_at book (first_index balanced.0))
                  (price_at book (last_index balanced.0))
                  (market_ref_price m ref_price precision x
                    (get_or balanced.1 (last_index balanced.0 - first_index best_indexes) (pos 0))))
              first.1
            ∙ ap
                (λ x.
                  best_price_from_ref_price (price_at book (first_index balanced.0))
                    (price_at book (last_index balanced.0))
                    (market_ref_price m ref_price precision (pressure (first_index balanced.0)) x))
                last.1,
      )
