-- ===== src/Farm/Allocation/Backed.antt =====
-- BeginBlocker of x/farm against the books of all pools.
use Prim.Native.String.{String}
use text.Mathlib.Text.{◌==◌ as string_eq}
use okexchain.Base.{
  distinct, occurs, update, ◌≡◌, ◌⊎◌, refl, sym, ap, ◌∙◌, subst, inl, inr, ℤ, pos, ◌+ℤ◌, ◌-ℤ◌,
  int_laws, -ℤ_self, +ℤ_zero, Bool, true, false, not, ◌&&◌, ◌||◌, Bool-cases, List, [], ◌∷◌, Option,
  some, if◌then◌else◌, Result, ok, >>=-eq-ok, or_fail->>=-eq-ok, ok-eq,
}
use okexchain.Sdk.{SdkDec, DecMath}
use okexchain.Sdk.Sets.{CoinSets, ModuleBank}
use okexchain.Swap.Redeem.{SwapView}
use okexchain.Farm.Types.{FarmError, FarmPool, State}
use okexchain.Farm.Allocation.{
  calculate_allocate_info, get_pool_locked_value, is_not_positive, allocated_amount, allocate_to,
  allocate,
}
use okexchain.Farm.Allocation.Laws.{named, Loaded, Loaded-write, allocate_to-Writes}
use okexchain.Farm.Books.{fits, fits_parts, Writes-Backed, Backed}

unfoldable pub all_occur : List String → List String → Bool
all_occur [] names = true
all_occur (n ∷ ns) names = occurs n names && all_occur ns names

pub and_true : (a b : Bool) → (a && b) ≡ true → (a ≡ true) × (b ≡ true)
and_true false b h = cc
and_true true b h = (refl, h)

denied : (a : Bool) → not a ≡ true → a ≡ false
denied false h = refl
denied true h = cc

-- Either branch has succeeded.
pub if-eq-ok :
    {A : Type 0} (t : Bool) (a b x : A)
    → ◌≡◌ {A = Result FarmError A} (if t then ok a else ok b) (ok x)
    → (a ≡ x) ⊎ (b ≡ x)
if-eq-ok true a b x h = inl (ok-eq h)
if-eq-ok false a b x h = inr (ok-eq h)

module _ {m : DecMath} (s : CoinSets m) (k : ModuleBank s) (v : SwapView) (d : String) where
  open s use {Coins, amount, of_amount}
  open k use {balance}

  abbrev pub Known : List (FarmPool s) → List String → Type 0
  Known [] names = Unit
  Known (pool ∷ pools) names = (occurs pool.name names ≡ true) × Known pools names

  -- What a number of the bond denomination comes to in the denomination `d`.
  abbrev pub in_bond : String → SdkDec → SdkDec
  in_bond bond n = amount d (of_amount bond n)

  in_bond_split :
      (bond : String) (q r l n : ℤ)
      → q +ℤ in_bond bond n +ℤ in_bond bond (r -ℤ n -ℤ l) ≡ q +ℤ in_bond bond (r -ℤ l)
  in_bond_split bond q r l n =
      rw
        (
          s.amount-of_amount d bond n,
          s.amount-of_amount d bond (r -ℤ n -ℤ l),
          s.amount-of_amount d bond (r -ℤ l),
        )
        (elim (Bool-cases (string_eq bond d)) [
          | inl t ↦ rw t (whole q r l n)
          | inr t ↦ rw t (nothing q)
        ])
    where
      whole : (q r l n : ℤ) → q +ℤ n +ℤ (r -ℤ n -ℤ l) ≡ q +ℤ (r -ℤ l)
      whole q r l n = omega int_laws

      nothing : (q : ℤ) → q +ℤ pos 0 +ℤ pos 0 ≡ q +ℤ pos 0
      nothing q = omega int_laws

  in_bond_none : (bond : String) (q r : ℤ) → q ≡ q +ℤ in_bond bond (r -ℤ r)
  in_bond_none bond q r =
      rw (s.amount-of_amount d bond (r -ℤ r), -ℤ_self r)
        (elim (Bool-cases (string_eq bond d)) [
          | inl t ↦ rw t (sym (+ℤ_zero q))
          | inr t ↦ rw t (sym (+ℤ_zero q))
        ])

  allocate_to-bank :
      (bond : String) (pool : FarmPool s) (n : SdkDec) (st st' : State s k)
      → allocate_to s k v bond pool n st ≡ ok st'
      → st'.bank ≡ st.bank
  unfolding allocate_to
  allocate_to-bank bond pool n st st' h =
      let (current, _, h1) = or_fail->>=-eq-ok (st.current pool.name) _ _ h in
      ap (λ x. x.bank) (sym (ok-eq h1))

  -- The loop promises the pools what it takes off the remaining amount.
  pub allocate-Backed :
      (names : List String) (values : String → Option SdkDec) (yielded total : SdkDec)
      (bond : String) (pools : List (FarmPool s)) (remaining left pending : SdkDec)
      (st st' : State s k)
      → distinct names ≡ true
      → Known pools names
      → Loaded s k v pools st
      → Backed s k d names pending st
      → allocate s k v values yielded total bond pools remaining st ≡ ok (left, st')
      → Backed s k d names (pending +ℤ in_bond bond (remaining -ℤ left)) st' × (st'.bank ≡ st.bank)
  unfolding allocate
  allocate-Backed names values yielded total bond [] remaining left pending st st' nd kn ld bk h =
      let e = ok-eq h in
      (
        subst (λ x. Backed s k d names (pending +ℤ in_bond bond (remaining -ℤ x.0)) x.1) e
            (subst (λ n. Backed s k d names n st) (in_bond_none bond pending remaining) bk),
        ap (λ x. x.1.bank) (sym e),
      )
  allocate-Backed names values yielded total bond (pool ∷ pools) remaining left pending st st' nd
        (mem, kn) (here, own, ld) bk h =
      let (n, _, h1) =
        >>=-eq-ok (allocated_amount s k v values yielded total pool pools remaining) _ h in
      let (st1, e1, h2) = >>=-eq-ok (allocate_to s k v bond pool n st) _ h1 in
      let writes = allocate_to-Writes s k v d bond pool n st st1 (bk.0 pool.name) here e1 in
      let bk1 =
        Writes-Backed s k d names pool.name pending (in_bond bond n) st st1 nd mem bk writes in
      let (bk2, same) =
        allocate-Backed names values yielded total bond pools (remaining -ℤ n) left
          (pending +ℤ in_bond bond n) st1 st' nd kn
          (Loaded-write s k v pools pool.name writes.0 st st1 writes.1 own ld) bk1 h2 in
      (
        subst (λ a. Backed s k d names a st') (in_bond_split bond pending remaining left n) bk2,
        same ∙ allocate_to-bank bond pool n st st1 e1,
      )

  -- The pools of calculateAllocateInfo are those of the store, each once, and a total above zero
  -- has come from one of them.
  abbrev pub Found : List String → List String → State s k → List (FarmPool s) → ℤ → Type 0
  Found names ns st pools total =
      Known pools names
      × Loaded s k v pools st
      × ((name : String) → occurs name ns ≡ false → named s k v name pools ≡ false)
      × (pools ≡ [] → total ≡ pos 0)

  or_false : (a b : Bool) → (a || b) ≡ false → (a ≡ false) × (b ≡ false)
  or_false false b h = (refl, h)
  or_false true b h = cc

  pub calculate_allocate_info-Found :
      (names ns : List String) (values : String → Option SdkDec) (pools : List (FarmPool s))
      (total : SdkDec) (st : State s k)
      → ((name : String) → fits s k d name (st.pools name) ≡ true)
      → distinct ns ≡ true
      → all_occur ns names ≡ true
      → calculate_allocate_info s k v ns st ≡ ok (values, pools, total)
      → Found names ns st pools total
  unfolding calculate_allocate_info all_occur distinct occurs
  calculate_allocate_info-Found names [] values pools total st fit nd sub h =
      let e = ok-eq h in
      subst (λ x. Found names [] st x.1 x.2) e (tt, tt, λ name out. refl, λ e. refl)
  calculate_allocate_info-Found names (n ∷ ns) values pools total st fit nd sub h =
      let (pool, e1, h1) = or_fail->>=-eq-ok (st.pools n) _ _ h in
      let (value, e2, h2) = >>=-eq-ok (get_pool_locked_value s k v pool st) _ h1 in
      let ((values1, pools1, total1), e3, h3) =
        >>=-eq-ok (calculate_allocate_info s k v ns st) _ h2 in
      let (fresh, nd1) = and_true (not (occurs n ns)) (distinct ns) nd in
      let (mem, sub1) = and_true (occurs n names) (all_occur ns names) sub in
      let (kn, ld, out, empty_total) =
        calculate_allocate_info-Found names ns values1 pools1 total1 st fit nd1 sub1 e3 in
      let (key, _, _) = fits_parts s k d n pool (ap (fits s k d n) (sym e1) ∙ fit n) in
      elim (if-eq-ok (is_not_positive value) (values1, pools1, total1)
        (update values1 n (some value), pool ∷ pools1, value +ℤ total1) _ h3) [
          | inl e ↦
              subst (λ x. Found names (n ∷ ns) st x.1 x.2) e
                (
                  kn,
                  ld,
                  λ name other. out name (or_false (string_eq name n) _ other).1,
                  empty_total,
                )
          | inr e ↦
              subst (λ x. Found names (n ∷ ns) st x.1 x.2) e
                (
                  (ap (λ a. occurs a names) key ∙ mem, kn),
                  (
                    ap st.pools key ∙ e1,
                    ap (λ a. named s k v a pools1) key ∙ out n (denied _ fresh),
                    ld,
                  ),
                  λ name other.
                      let (far, rest) = or_false (string_eq name n) _ other in
                      rw (ap (string_eq name) key ∙ far) (out name rest),
                  λ none_found. cc,
                )
        ]
