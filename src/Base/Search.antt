-- ===== src/Base/Search.antt =====
-- Go's sort.Search: the binary search for the first index at which a test holds.
use Prim.Native.Nat.{ℕ, zero, suc, ◌+◌, ◌-◌, ◌/◌, ◌≤◌, ◌<◌}
use mathlib.Core.Path.{◌≡◌}
use mathlib.Core.Logic.{inl, inr, ◌⊎◌}
use mathlib.Core.Bool.{Bool, true, false}
use native.Mathlib.Omega.{arith}
use okexchain.Base.Tests.{ltb, Bool-cases}

-- The loop `for i < j`, on fuel.
pub search_between : ℕ → (ℕ → Bool) → ℕ → ℕ → ℕ
search_between zero f i j = i
search_between (suc fuel) f i j = elim (ltb i j) [
  | false ↦ i
  | true ↦ elim (f ((i + j) / 2)) [
    | true ↦ search_between fuel f i ((i + j) / 2)
    | false ↦ search_between fuel f ((i + j) / 2 + 1) j
  ]
]

unfoldable pub search : ℕ → (ℕ → Bool) → ℕ
unfolding search_between
search n f = search_between n f 0 n

-- `r` is the first index below `n` at which `f` holds, or `n` where there is none.
pub record IsFirst (f : ℕ → Bool) (n r : ℕ) : Type 0 where
  pub within : r ≤ n
  pub before : (k : ℕ) → k < r → f k ≡ false
  pub found : r < n → f r ≡ true

lt_or_ge : (a b : ℕ) → (a < b) ⊎ (b ≤ a)
lt_or_ge a b = omega arith

module _ (f : ℕ → Bool) (n : ℕ) (mono : (a b : ℕ) → a ≤ b → b < n → f a ≡ true → f b ≡ true) where
  -- A test that fails at `h` fails at every smaller index.
  fails_below : (h k : ℕ) → h < n → f h ≡ false → k ≤ h → f k ≡ false
  fails_below h k hn e kh = elim (Bool-cases (f k)) [ inl t ↦ ground (arith, mono k h) | inr t ↦ t ]

  between-IsFirst :
      (fuel i j : ℕ)
      → i ≤ j
      → j ≤ n
      → j - i ≤ fuel
      → ((k : ℕ) → k < i → f k ≡ false)
      → ((k : ℕ) → j ≤ k → k < n → f k ≡ true)
      → IsFirst f n (search_between fuel f i j)
  unfolding search_between
  between-IsFirst zero i j ij jn m lo hi = record {
    within = omega arith;
    before = lo;
    found = λ h. hi i (omega arith) h;
  }
  between-IsFirst (suc fuel) i j ij jn m lo hi = elim (Bool-cases (ltb i j)) [
    | inr stop ↦
        rw (stop, search_between)
          (record { within = omega arith; before = lo; found = λ h. hi i (ground arith) h })
    | inl go ↦ elim (Bool-cases (f ((i + j) / 2))) [
      | inl t ↦
          rw (go, search_between, t)
            (between-IsFirst fuel i ((i + j) / 2) (ground arith) (ground arith) (ground arith) lo
              (λ k a b. mono ((i + j) / 2) k a b t))
      | inr e ↦
          rw (go, search_between, e)
            (between-IsFirst fuel ((i + j) / 2 + 1) j (ground arith) jn (ground arith)
              (λ k a. fails_below ((i + j) / 2) k (ground arith) e (ground arith)) hi)
    ]
  ]

  pub search-IsFirst : IsFirst f n (search n f)
  unfolding search
  search-IsFirst =
      between-IsFirst n 0 n (omega arith) (omega arith) (omega arith) (λ k h. absurd (omega arith))
        (λ k a b. absurd (omega arith))

-- There is one first index.
pub IsFirst-unique : (f : ℕ → Bool) (n r s : ℕ) → IsFirst f n r → IsFirst f n s → r ≡ s
IsFirst-unique f n r s a b = ground (arith, a.before s, b.before r, a.found, b.found)
