-- ===== src/Order/Auction/Select.antt =====
-- The indexes that execRule1 and execRule2 select.
use okexchain.Base.{
  ℕ, zero, suc, ◌+◌, ◌-◌, ◌≤◌, ◌<◌, ◌≡◌, refl, ◌⊎◌, inl, inr, ℤ, pos, ◌≤ℤ◌, eqb_ℤ, min_ℤ, max_ℤ,
  leb_ℤ, abs, Bool, true, false, ◌&&◌, if◌then◌else◌, List, [], ◌∷◌, map, arith, length, get_or,
  All, Bool-cases, eq_of_parts, min_ℤ-le_left, min_ℤ-le_right, ap, sym, ◌∙◌, le-max_ℤ_left,
}
use okexchain.Order.Auction.{
  max_execution_from, indexes_from, min_abs_from, min_abs_imbalance, select_balanced, exec_rule2,
  imbalance_at,
}

pub eqb_ℤ→eq : (a b : ℤ) → eqb_ℤ a b ≡ true → a ≡ b
eqb_ℤ→eq a b h = eq_of_parts a b (ground arith)

pub eqb_ℤ-self : (a : ℤ) → eqb_ℤ a a ≡ true
eqb_ℤ-self a = ground arith

pub All-map {ℓ κ μ} :
    {A : Type ℓ} (P : A → Type κ) (Q : A → Type μ) (xs : List A)
    → ((a : A) → P a → Q a)
    → All P xs
    → All Q xs
All-map P Q [] f h = tt
All-map P Q (x ∷ xs) f h = (f x h.0, All-map P Q xs f h.1)

pub All-get_or {ℓ κ} :
    {A : Type ℓ} (P : A → Type κ) (xs : List A) (i : ℕ) (d : A)
    → All P xs
    → i < length xs
    → P (get_or xs i d)
All-get_or P [] i d h l = absurd (omega arith)
All-get_or P (x ∷ xs) zero d h l = h.0
All-get_or P (x ∷ xs) (suc i) d h l = All-get_or P xs i d h.1 (omega arith)

pub max_execution_from-best : (best : ℤ) (es : List ℤ) → best ≤ℤ max_execution_from best es
unfolding max_execution_from max_ℤ
max_execution_from-best best [] = omega arith
max_execution_from-best best (e ∷ es) = ground (arith, max_execution_from-best (max_ℤ e best) es)

pub max_execution_from-ge :
    (best : ℤ) (es : List ℤ) (i : ℕ)
    → i < length es
    → get_or es i (pos 0) ≤ℤ max_execution_from best es
unfolding max_execution_from
max_execution_from-ge best [] i h = absurd (omega arith)
max_execution_from-ge best (e ∷ es) zero h =
    omega (arith, max_execution_from-best (max_ℤ e best) es, le-max_ℤ_left e best)
max_execution_from-ge best (e ∷ es) (suc i) h =
    max_execution_from-ge (max_ℤ e best) es i (omega arith)

max_ℤ-cases : (a b : ℤ) → (max_ℤ a b ≡ a) ⊎ (max_ℤ a b ≡ b)
unfolding max_ℤ
max_ℤ-cases a b = ground arith

min_ℤ-cases : (a b : ℤ) → (min_ℤ a b ≡ a) ⊎ (min_ℤ a b ≡ b)
unfolding min_ℤ
min_ℤ-cases a b = ground arith

-- `r` stands in the list.
abbrev pub Stands : ℤ → List ℤ → Type 0
Stands r es = (i : ℕ) × (i < length es) × (get_or es i (pos 0) ≡ r)

-- The largest execution is the starting value or one of the list.
pub max_execution_from-Stands :
    (best : ℤ) (es : List ℤ)
    → (max_execution_from best es ≡ best) ⊎ Stands (max_execution_from best es) es
unfolding max_execution_from
max_execution_from-Stands best [] = inl refl
max_execution_from-Stands best (e ∷ es) = elim (max_execution_from-Stands (max_ℤ e best) es) [
  | inr (i, h, p) ↦ inr (suc i, omega arith, p)
  | inl p ↦ elim (max_ℤ-cases e best) [
    | inl q ↦ inr (0, omega arith, sym (p ∙ q))
    | inr q ↦ inl (p ∙ q)
  ]
]

-- `j` is the place, counted from `i`, of an execution that equals `best`.
abbrev pub Places : ℕ → ℤ → List ℤ → ℕ → Type 0
Places i best es j = (i ≤ j) × (j < i + length es) × (get_or es (j - i) (pos 0) ≡ best)

Places-later :
    (i : ℕ) (best e : ℤ) (es : List ℤ) (j : ℕ) → Places (suc i) best es j → Places i best (e ∷ es) j
Places-later i best e es j (h, l, p) =
    let shift : j - i ≡ suc (j - suc i) = omega arith in (omega arith, omega arith, rw shift p)

pub indexes_from-Places :
    (i : ℕ) (best : ℤ) (es : List ℤ) → All (Places i best es) (indexes_from i best es)
unfolding indexes_from
indexes_from-Places i best [] = tt
indexes_from-Places i best (e ∷ es) =
    let rest =
      All-map _ _ (indexes_from (suc i) best es) (Places-later i best e es)
        (indexes_from-Places (suc i) best es) in
    elim (Bool-cases (eqb_ℤ e best)) [
      | inl h ↦
          let first : i - i ≡ 0 = omega arith in
          rw h ((omega arith, omega arith, rw first (eqb_ℤ→eq e best h)), rest)
      | inr h ↦ rw h rest
    ]

pub indexes_from-nonempty :
    (i j : ℕ) (best : ℤ) (es : List ℤ)
    → j < length es
    → get_or es j (pos 0) ≡ best
    → 0 < length (indexes_from i best es)
unfolding indexes_from
indexes_from-nonempty i j best [] h e = absurd (omega arith)
indexes_from-nonempty i zero best (x ∷ es) h e = ground (arith, eqb_ℤ-self x)
indexes_from-nonempty i (suc j) best (x ∷ es) h e =
    ground (arith, indexes_from-nonempty (suc i) j best es)

min_abs_from-Stands :
    (best : ℤ) (xs : List ℤ)
    → (min_abs_from best xs ≡ best) ⊎ Stands (min_abs_from best xs) (map abs xs)
unfolding min_abs_from
min_abs_from-Stands best [] = inl refl
min_abs_from-Stands best (x ∷ xs) = elim (min_abs_from-Stands (min_ℤ best (abs x)) xs) [
  | inr (i, h, p) ↦ inr (suc i, omega arith, p)
  | inl p ↦ elim (min_ℤ-cases best (abs x)) [
    | inl q ↦ inl (p ∙ q)
    | inr q ↦ inr (0, omega arith, sym (p ∙ q))
  ]
]

-- The least absolute imbalance of a list that is not empty is that of one of its entries.
min_abs_imbalance-Stands :
    (xs : List ℤ) → 0 < length xs → Stands (min_abs_imbalance xs) (map abs xs)
unfolding min_abs_imbalance
min_abs_imbalance-Stands [] h = absurd (omega arith)
min_abs_imbalance-Stands (x ∷ xs) h = elim (min_abs_from-Stands (abs x) xs) [
  | inl p ↦ (0, omega arith, sym p)
  | inr (i, l, p) ↦ (suc i, omega arith, p)
]

select_balanced-nonempty :
    (best : ℤ) (indexes : List ℕ) (xs : List ℤ) (k : ℕ)
    → length indexes ≡ length xs
    → k < length (map abs xs)
    → get_or (map abs xs) k (pos 0) ≡ best
    → 0 < length (select_balanced best indexes xs)
unfolding select_balanced
select_balanced-nonempty best [] [] k l h e = absurd (omega arith)
select_balanced-nonempty best [] (x ∷ xs) k l h e = absurd (omega arith)
select_balanced-nonempty best (i ∷ indexes) [] k l h e = absurd (omega arith)
select_balanced-nonempty best (i ∷ indexes) (x ∷ xs) zero l h e = ground (arith, eqb_ℤ-self (abs x))
select_balanced-nonempty best (i ∷ indexes) (x ∷ xs) (suc k) l h e =
    ground (arith, select_balanced-nonempty best indexes xs k)

select_balanced-All {κ} :
    (P : ℕ → Type κ) (best : ℤ) (indexes : List ℕ) (xs : List ℤ)
    → All P indexes
    → All P (select_balanced best indexes xs)
unfolding select_balanced
select_balanced-All P best [] xs h = tt
select_balanced-All P best (i ∷ indexes) [] h = tt
select_balanced-All P best (i ∷ indexes) (x ∷ xs) h = elim (Bool-cases (eqb_ℤ (abs x) best)) [
  | inl e ↦ rw e (h.0, select_balanced-All P best indexes xs h.1)
  | inr e ↦ rw e (select_balanced-All P best indexes xs h.1)
]

pub length-map {ℓ κ} :
    {A : Type ℓ} {B : Type κ} (f : A → B) (xs : List A) → length (map f xs) ≡ length xs
length-map f [] = refl
length-map f (x ∷ xs) = ap suc (length-map f xs)

-- execRule2 selects some of its indexes, and at least one of them.
pub exec_rule2-selects {κ} :
    (P : ℕ → Type κ) (buys sells : List ℤ) (indexes : List ℕ)
    → 0 < length indexes
    → All P indexes
    → All P (exec_rule2 buys sells indexes).0 × (0 < length (exec_rule2 buys sells indexes).0)
unfolding exec_rule2
exec_rule2-selects P buys sells indexes h a =
    let xs = map (imbalance_at buys sells) indexes in
    let same : length xs ≡ length indexes = length-map (imbalance_at buys sells) indexes in
    let (k, l, e) = min_abs_imbalance-Stands xs (omega arith) in
    (
      select_balanced-All P (min_abs_imbalance xs) indexes xs a,
      select_balanced-nonempty (min_abs_imbalance xs) indexes xs k (sym same) l e,
    )

pub exec_rule2-All {κ} :
    (P : ℕ → Type κ) (buys sells : List ℤ) (indexes : List ℕ)
    → All P indexes
    → All P (exec_rule2 buys sells indexes).0
unfolding exec_rule2
exec_rule2-All P buys sells indexes a =
    select_balanced-All P (min_abs_imbalance (map (imbalance_at buys sells) indexes)) indexes
      (map (imbalance_at buys sells) indexes) a

pub All-and {ℓ κ μ} :
    {A : Type ℓ} (P : A → Type κ) (Q : A → Type μ) (xs : List A)
    → All P xs
    → All Q xs
    → All (λ a. P a × Q a) xs
All-and P Q [] h k = tt
All-and P Q (x ∷ xs) h k = ((h.0, k.0), All-and P Q xs h.1 k.1)

min_abs_from-best : (best : ℤ) (xs : List ℤ) → min_abs_from best xs ≤ℤ best
unfolding min_abs_from
min_abs_from-best best [] = omega arith
min_abs_from-best best (x ∷ xs) =
    omega (arith, min_abs_from-best (min_ℤ best (abs x)) xs, min_ℤ-le_left best (abs x))

min_abs_from-le : (best : ℤ) (xs : List ℤ) → All (λ x. min_abs_from best xs ≤ℤ abs x) xs
unfolding min_abs_from
min_abs_from-le best [] = tt
min_abs_from-le best (x ∷ xs) = (
  omega (arith, min_abs_from-best (min_ℤ best (abs x)) xs, min_ℤ-le_right best (abs x)),
  min_abs_from-le (min_ℤ best (abs x)) xs,
)

min_abs_imbalance-le : (xs : List ℤ) → All (λ x. min_abs_imbalance xs ≤ℤ abs x) xs
unfolding min_abs_imbalance
min_abs_imbalance-le [] = tt
min_abs_imbalance-le (x ∷ xs) = (min_abs_from-best (abs x) xs, min_abs_from-le (abs x) xs)

All-of_map {ℓ κ μ} :
    {A : Type ℓ} {B : Type κ} (f : A → B) (P : B → Type μ) (xs : List A)
    → All P (map f xs)
    → All (λ a. P (f a)) xs
All-of_map f P [] h = tt
All-of_map f P (x ∷ xs) h = (h.0, All-of_map f P xs h.1)

-- The members of a list that pass a test, in order; and whether all pass it.
unfoldable pub kept : (ℕ → Bool) → List ℕ → List ℕ
kept test [] = []
kept test (i ∷ indexes) = let rest = kept test indexes in if test i then i ∷ rest else rest

unfoldable pub all_pass : (ℕ → Bool) → List ℕ → Bool
all_pass test [] = true
all_pass test (i ∷ indexes) = test i && all_pass test indexes

-- Whether the absolute imbalance of an index is at most that of every one of the indexes.
abbrev pub is_least : List ℤ → List ℤ → List ℕ → ℕ → Bool
is_least buys sells indexes j =
    all_pass (λ i. leb_ℤ (abs (imbalance_at buys sells j)) (abs (imbalance_at buys sells i)))
      indexes

select_balanced-kept :
    (f : ℕ → ℤ) (best : ℤ) (indexes : List ℕ)
    → select_balanced best indexes (map f indexes) ≡ kept (λ j. eqb_ℤ (abs (f j)) best) indexes
unfolding select_balanced kept
select_balanced-kept f best [] = refl
select_balanced-kept f best (i ∷ indexes) = elim (Bool-cases (eqb_ℤ (abs (f i)) best)) [
  | inl e ↦ rw e (ap (◌∷◌ i) (select_balanced-kept f best indexes))
  | inr e ↦ rw e (select_balanced-kept f best indexes)
]

kept-same :
    (p q : ℕ → Bool) (indexes : List ℕ)
    → All (λ j. p j ≡ q j) indexes
    → kept p indexes ≡ kept q indexes
unfolding kept
kept-same p q [] h = refl
kept-same p q (i ∷ indexes) (h, hs) = elim (Bool-cases (q i)) [
  | inl e ↦ rw (h ∙ e, e) (ap (◌∷◌ i) (kept-same p q indexes hs))
  | inr e ↦ rw (h ∙ e, e) (kept-same p q indexes hs)
]

all_pass-true :
    (test : ℕ → Bool) (indexes : List ℕ)
    → All (λ i. test i ≡ true) indexes
    → all_pass test indexes ≡ true
unfolding all_pass
all_pass-true test [] h = refl
all_pass-true test (i ∷ indexes) (h, hs) = rw h (all_pass-true test indexes hs)

all_pass-false :
    (test : ℕ → Bool) (indexes : List ℕ) (n : ℕ)
    → n < length indexes
    → test (get_or indexes n 0) ≡ false
    → all_pass test indexes ≡ false
unfolding all_pass
all_pass-false test [] n l h = absurd (omega arith)
all_pass-false test (i ∷ indexes) zero l h = rw h refl
all_pass-false test (i ∷ indexes) (suc n) l h = elim (Bool-cases (test i)) [
  | inl e ↦ rw e (all_pass-false test indexes n (omega arith) h)
  | inr e ↦ rw e refl
]

get_or-map-abs :
    (f : ℕ → ℤ) (indexes : List ℕ) (n : ℕ)
    → n < length indexes
    → get_or (map abs (map f indexes)) n (pos 0) ≡ abs (f (get_or indexes n 0))
get_or-map-abs f [] n l = absurd (omega arith)
get_or-map-abs f (i ∷ indexes) zero l = refl
get_or-map-abs f (i ∷ indexes) (suc n) l = get_or-map-abs f indexes n (omega arith)

All-self {ℓ} : {A : Type ℓ} (P : A → Type 0) (xs : List A) → ((a : A) → P a) → All P xs
All-self P [] h = tt
All-self P (x ∷ xs) h = (h x, All-self P xs h)

-- The test of the code, against the least value, is the test against all of them.
eqb-least :
    (f : ℕ → ℤ) (best : ℤ) (indexes : List ℕ) (n j : ℕ)
    → All (λ i. best ≤ℤ abs (f i)) indexes
    → n < length indexes
    → abs (f (get_or indexes n 0)) ≡ best
    → best ≤ℤ abs (f j)
    → eqb_ℤ (abs (f j)) best ≡ all_pass (λ i. leb_ℤ (abs (f j)) (abs (f i))) indexes
eqb-least f best indexes n j least l e above = elim (Bool-cases (eqb_ℤ (abs (f j)) best)) [
  | inl t ↦
      let same = eqb_ℤ→eq (abs (f j)) best t in
      t
      ∙ sym (
          all_pass-true (λ i. leb_ℤ (abs (f j)) (abs (f i))) indexes
            (All-map (λ i. best ≤ℤ abs (f i)) _ indexes
              (λ i h. ap (λ x. leb_ℤ x (abs (f i))) same ∙ le_test best (abs (f i)) h) least))
  | inr t ↦
      t
      ∙ sym (
          all_pass-false (λ i. leb_ℤ (abs (f j)) (abs (f i))) indexes n l
            (ap (leb_ℤ (abs (f j))) e ∙ above_test (abs (f j)) best above t))
]
  where
    le_test : (a b : ℤ) → a ≤ℤ b → leb_ℤ a b ≡ true
    le_test a b h = ground arith

    above_test : (a b : ℤ) → b ≤ℤ a → eqb_ℤ a b ≡ false → leb_ℤ a b ≡ false
    above_test a b h k = ground arith

-- execRule2 selects, in their order, just those of its indexes whose absolute imbalance is the least
-- among all of them.
pub exec_rule2-least :
    (buys sells : List ℤ) (indexes : List ℕ)
    → (exec_rule2 buys sells indexes).0 ≡ kept (is_least buys sells indexes) indexes
unfolding exec_rule2 kept
exec_rule2-least buys sells [] = refl
exec_rule2-least buys sells (x ∷ xs) =
    let f = imbalance_at buys sells in
    let indexes = x ∷ xs in
    let least = min_abs_imbalance (map f indexes) in
    let all_above =
      All-of_map f (λ x. least ≤ℤ abs x) indexes (min_abs_imbalance-le (map f indexes)) in
    let (n, l, e) = min_abs_imbalance-Stands (map f indexes) (omega arith) in
    let within : n < length indexes =
      omega (arith, length-map abs (map f indexes), length-map f indexes) in
    let at : abs (f (get_or indexes n 0)) ≡ least = sym (get_or-map-abs f indexes n within) ∙ e in
    select_balanced-kept f least indexes
    ∙ kept-same _ _ indexes (
        All-map (λ i. least ≤ℤ abs (f i)) _ indexes
          (λ j h. eqb-least f least indexes n j all_above within at h) all_above)
