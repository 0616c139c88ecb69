-- ===== src/Farm/Allocation/Laws.antt =====
-- BeginBlocker of x/farm: what the pools are given, and what the books say of it.
use Prim.Native.String.{String}
use text.Mathlib.Text.{◌==◌ as string_eq}
use okexchain.Base.{
  update, ◌≡◌, refl, sym, ap, ◌∙◌, ℤ, pos, ◌+ℤ◌, ◌-ℤ◌, int_laws, -ℤ_self, Bool, true, false, ◌||◌,
  List, [], ◌∷◌, Option, some, ok, >>=-eq-ok, or_fail->>=-eq-ok, ok-eq,
}
use okexchain.Sdk.{SdkDec, DecMath}
use okexchain.Sdk.Sets.{CoinSets, ModuleBank}
use okexchain.Swap.Redeem.{SwapView}
use okexchain.Farm.Types.{FarmPool, State, farm_account, yield_farming_account}
use okexchain.Farm.Yield.Laws.{accounted}
use okexchain.Farm.Allocation.{allocated_amount, allocate_to, allocate}
use okexchain.Farm.Books.{owed, kept, fits, fits_parts, fits_of_parts, Writes}

module _ {m : DecMath} (s : CoinSets m) (k : ModuleBank s) (v : SwapView) where
  open s use {Coins, amount, of_amount}
  open k use {balance}

  -- The loop gives away everything, as soon as there is a pool.
  pub allocate-spends :
      (values : String → Option SdkDec) (yielded total : SdkDec) (bond : String) (pool : FarmPool s)
      (pools : List (FarmPool s)) (remaining left : SdkDec) (st st' : State s k)
      → allocate s k v values yielded total bond (pool ∷ pools) remaining st ≡ ok (left, st')
      → left ≡ pos 0
  unfolding allocate allocated_amount
  allocate-spends values yielded total bond pool [] remaining left st st' h =
      let (st1, e, h1) = >>=-eq-ok (allocate_to s k v bond pool remaining st) _ h in
      sym (ap (λ x. x.0) (ok-eq h1)) ∙ -ℤ_self remaining
  allocate-spends values yielded total bond pool (next ∷ pools) remaining left st st' h =
      let (given, e, h1) =
        >>=-eq-ok (allocated_amount s k v values yielded total pool (next ∷ pools) remaining) _ h in
      let (st1, e1, h2) = >>=-eq-ok (allocate_to s k v bond pool given st) _ h1 in
      allocate-spends values yielded total bond next pools (remaining -ℤ given) left st1 st' h2

  -- The pools as the loop found them, each under a name of its own.
  abbrev pub named : String → List (FarmPool s) → Bool
  named name [] = false
  named name (pool ∷ pools) = string_eq name pool.name || named name pools

  abbrev pub Loaded : List (FarmPool s) → State s k → Type 0
  Loaded [] st = Unit
  Loaded (pool ∷ pools) st =
      (st.pools pool.name ≡ some pool) × (named pool.name pools ≡ false) × Loaded pools st

  or_false : (a b : Bool) → (a || b) ≡ false → (a ≡ false) × (b ≡ false)
  or_false false b h = (refl, h)
  or_false true b h = cc

  pub Loaded-write :
      (pools : List (FarmPool s)) (name : String) (value : Option (FarmPool s)) (st st' : State s k)
      → st'.pools ≡ update st.pools name value
      → named name pools ≡ false
      → Loaded pools st
      → Loaded pools st'
  Loaded-write [] name value st st' e out h = tt
  Loaded-write (pool ∷ pools) name value st st' e out (h, own, rest) =
      let (other, out') = or_false (string_eq name pool.name) _ out in
      (ap (λ f. f pool.name) e ∙ rw other h, own, Loaded-write pools name value st st' e out' rest)

  module _ (d : String) where
    -- One pool is promised its amount.
    pub allocate_to-Writes :
        (bond : String) (pool : FarmPool s) (n : SdkDec) (st st' : State s k)
        → fits s k d pool.name (st.pools pool.name) ≡ true
        → st.pools pool.name ≡ some pool
        → allocate_to s k v bond pool n st ≡ ok st'
        → Writes s k d pool.name (amount d (of_amount bond n)) st st'
    unfolding allocate_to owed kept
    allocate_to-Writes bond pool n st st' fit e h =
        let (current, _, h1) = or_fail->>=-eq-ok (st.current pool.name) _ _ h in
        let (key, remain, sign) =
          fits_parts s k d pool.name pool (ap (fits s k d pool.name) (sym e) ∙ fit) in
        let coins = of_amount bond n in
        let pool' : FarmPool s = record pool {
          total_accumulated_rewards = s.add2 pool.total_accumulated_rewards coins;
        } in
        let end = sym (ok-eq h1) in
        (
          some pool',
          ap (λ x. x.pools) end,
          fits_of_parts s k d pool.name pool' refl remain sign,
          ap (λ x. balance x.bank yield_farming_account d +ℤ amount d coins -ℤ accounted s d pool')
                end
              ∙ promised _ _ _ _ _ (s.amount-add2 d pool.total_accumulated_rewards coins)
              ∙ ap (λ o. balance st.bank yield_farming_account d -ℤ owed s k d o) (sym e),
          ap (λ x. balance x.bank farm_account d -ℤ kept s k d (some pool')) end
              ∙ ap (λ o. balance st.bank farm_account d -ℤ kept s k d o) (sym e),
        )
      where
        both : (b g a l : ℤ) → b +ℤ g -ℤ (a +ℤ g +ℤ l) ≡ b -ℤ (a +ℤ l)
        both b g a l = omega int_laws

        promised : (b g a l a' : ℤ) → a' ≡ a +ℤ g → b +ℤ g -ℤ (a' +ℤ l) ≡ b -ℤ (a +ℤ l)
        promised b g a l a' e = rw e (both b g a l)
