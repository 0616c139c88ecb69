-- ===== src/Farm/Books.antt =====
-- The books of all pools, against which the invariants of x/farm/keeper/invariants.go hold the
-- accounts of the module. The locks of a pool are read from its total_value_locked.
pub mod Steps
pub mod Pools
use Prim.Native.String.{String}
use text.Mathlib.Text.{◌==◌ as string_eq}
use text.Mathlib.TextEquality.{eq_iff}
use okexchain.Base.{
  distinct, occurs, same_text, sum_over, sum_over-update, update, ◌≡◌, refl, sym, ap, ◌∙◌, subst,
  inl, inr, ℤ, pos, ◌+ℤ◌, ◌-ℤ◌, leb_ℤ, int_laws, Bool, true, false, not, ◌&&◌, ◌||◌, Bool-cases,
  List, [], ◌∷◌, Option, none, some, if◌then◌else◌, arith, string_eq_refl,
}
use okexchain.Sdk.{SdkDec, DecMath, Coin}
use okexchain.Sdk.Coins.{held}
use okexchain.Sdk.Sets.{CoinSets, ModuleBank}
use okexchain.Farm.Types.{FarmPool, State, farm_account, yield_farming_account}
use okexchain.Farm.Yield.Laws.{accounted, none_negative}

all_three : (a b c : Bool) → (a && b && c) ≡ true → (a ≡ true) × (b ≡ true) × (c ≡ true)
all_three false b c h = cc
all_three true false c h = cc
all_three true true c h = (refl, refl, h)

module _ {m : DecMath} (s : CoinSets m) (k : ModuleBank s) (d : String) where
  open k use {balance}

  -- What the yield farming account is to hold for a pool, and what the farm account is to hold.
  unfoldable pub owed : Option (FarmPool s) → ℤ
  owed none = pos 0
  owed (some pool) = accounted s d pool

  unfoldable pub kept : Option (FarmPool s) → ℤ
  kept none = pos 0
  kept (some pool) = held d pool.total_value_locked +ℤ held d pool.deposit_amount

  -- A pool stands under its own name, and owes no negative amount.
  unfoldable pub fits : String → Option (FarmPool s) → Bool
  fits name none = true
  fits name (some pool) =
      string_eq pool.name name
      && none_negative pool.yielded_token_infos
      && leb_ℤ (pos 0) pool.deposit_amount.amount

  pub fits_parts :
      (name : String) (pool : FarmPool s)
      → fits name (some pool) ≡ true
      → (pool.name ≡ name)
        × (none_negative pool.yielded_token_infos ≡ true)
        × (leb_ℤ (pos 0) pool.deposit_amount.amount ≡ true)
  unfolding fits
  fits_parts name pool h =
      let (e, f, g) =
        all_three (string_eq pool.name name) (none_negative pool.yielded_token_infos) _ h in
      (same_text e, f, g)

  pub fits_of_parts :
      (name : String) (pool : FarmPool s)
      → pool.name ≡ name
      → none_negative pool.yielded_token_infos ≡ true
      → leb_ℤ (pos 0) pool.deposit_amount.amount ≡ true
      → fits name (some pool) ≡ true
  unfolding fits
  fits_of_parts name pool e f g = rw (e, f, g, string_eq_refl name) refl

  -- The accounts hold what the books of the named pools say. `pending` has been promised to pools
  -- and is still to come in.
  abbrev pub Backed : List String → ℤ → State s k → Type 0
  Backed names pending st =
      ((name : String) → fits name (st.pools name) ≡ true)
      × (balance st.bank yield_farming_account d +ℤ pending ≡ sum_over owed names st.pools)
      × (balance st.bank farm_account d ≡ sum_over kept names st.pools)

  -- One pool is written, and the accounts move with its books; `promised` more is to come in.
  abbrev pub Writes : String → ℤ → State s k → State s k → Type 0
  Writes name promised st st' =
      (value : Option (FarmPool s)) × (st'.pools ≡ update st.pools name value)
      × (fits name value ≡ true)
      × (balance st'.bank yield_farming_account d +ℤ promised -ℤ owed value
          ≡ balance st.bank yield_farming_account d -ℤ owed (st.pools name))
      × (balance st'.bank farm_account d -ℤ kept value
          ≡ balance st.bank farm_account d -ℤ kept (st.pools name))

  update-fits :
      (f : String → Option (FarmPool s)) (name : String) (value : Option (FarmPool s))
      → fits name value ≡ true
      → ((n : String) → fits n (f n) ≡ true)
      → (n : String) → fits n (update f name value n) ≡ true
  update-fits f name value h all n = elim (Bool-cases (string_eq name n)) [
    | inl t ↦ rw t (ap (λ a. fits a value) (sym (same_text t)) ∙ h)
    | inr t ↦ rw t (all n)
  ]

  -- Writing one of the named pools keeps the books.
  pub Writes-Backed :
      (names : List String) (name : String) (pending promised : ℤ) (st st' : State s k)
      → distinct names ≡ true
      → occurs name names ≡ true
      → Backed names pending st
      → Writes name promised st st'
      → Backed names (pending +ℤ promised) st'
  Writes-Backed names name pending promised st st' nd mem (fit, yields, locks) (value, e, h, y, l) =
      (
        λ n. ap (λ f. fits n (f n)) e ∙ update-fits st.pools name value h fit n,
        moved _ _ _ _ _ _ _ yields y
            ∙ sym (sum_over-update owed names st.pools name value nd mem)
            ∙ ap (sum_over owed names) (sym e),
        still _ _ _ _ _ locks l
            ∙ sym (sum_over-update kept names st.pools name value nd mem)
            ∙ ap (sum_over kept names) (sym e),
      )
    where
      turn : (b' r o' q : ℤ) → b' +ℤ (q +ℤ r) ≡ b' +ℤ r -ℤ o' +ℤ q +ℤ o'
      turn b' r o' q = omega int_laws

      turn_back : (b o q o' : ℤ) → b -ℤ o +ℤ q +ℤ o' ≡ b +ℤ q -ℤ o +ℤ o'
      turn_back b o q o' = omega int_laws

      moved :
          (b' r o' b q t o : ℤ)
          → b +ℤ q ≡ t
          → b' +ℤ r -ℤ o' ≡ b -ℤ o
          → b' +ℤ (q +ℤ r) ≡ t -ℤ o +ℤ o'
      moved b' r o' b q t o f e =
          turn b' r o' q ∙ ap (λ n. n +ℤ q +ℤ o') e ∙ turn_back b o q o' ∙ ap (λ n. n -ℤ o +ℤ o') f

      back : (b' o' : ℤ) → b' ≡ b' -ℤ o' +ℤ o'
      back b' o' = omega int_laws

      still : (b' o' b t o : ℤ) → b ≡ t → b' -ℤ o' ≡ b -ℤ o → b' ≡ t -ℤ o +ℤ o'
      still b' o' b t o f e = back b' o' ∙ ap (◌+ℤ o') (e ∙ ap (λ n. n -ℤ o) f)
