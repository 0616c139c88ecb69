-- ===== src/Farm/Allocation/Block.antt =====
-- BeginBlocker of x/farm as one step.
use Prim.Native.String.{String}
use okexchain.Base.{
  distinct, update, ◌≡◌, ◌⊎◌, refl, sym, ap, ◌∙◌, subst, inl, inr, ℤ, pos, ◌+ℤ◌, ◌-ℤ◌, leb_ℤ,
  int_laws, eq_of_parts, -ℤ_zero, Bool, true, false, not, Bool-cases, List, [], ◌∷◌, Option, some,
  if◌then◌else◌, arith, Result, ok, >>=-eq-ok, or_fail->>=-eq-ok, fail_if->>-eq-ok, ok-eq,
}
use okexchain.Sdk.{SdkDec, DecMath}
use okexchain.Sdk.Sets.{CoinSets, ModuleBank}
use okexchain.Swap.Redeem.{SwapView}
use okexchain.Farm.Types.{
  FarmError, FarmPool, State, farm_account, yield_farming_account, mint_farming_account,
}
use okexchain.Farm.Allocation.{
  calculate_allocate_info, get_pool_locked_value, is_not_positive, is_zero_dec, allocate,
  distribute, allocate_yielded, burn_minted, begin_blocker,
}
use okexchain.Farm.Allocation.Laws.{allocate-spends}
use okexchain.Farm.Allocation.Backed.{
  if-eq-ok, all_occur, in_bond, Found, calculate_allocate_info-Found, allocate-Backed,
}
use okexchain.Farm.Books.{Backed}

zero_of : (a : ℤ) → not (is_zero_dec a) ≡ false → a ≡ pos 0
zero_of a h = ground (arith, eq_of_parts a (pos 0))

module _ {m : DecMath} (s : CoinSets m) (k : ModuleBank s) (v : SwapView) (d : String) where
  open s use {Coins, amount, of_amount}
  open k use {balance}

  -- What was promised to the pools comes in.
  receive :
      (names : List String) (bond : String) (yielded left : SdkDec) (st st1 : State s k)
      (bank : k.Bank)
      → left ≡ pos 0
      → st1.bank ≡ st.bank
      → k.module_to_module mint_farming_account yield_farming_account
          (of_amount bond yielded)
          st1.bank
        ≡ some bank
      → Backed s k d names (pos 0 +ℤ in_bond s k v d bond (yielded -ℤ left)) st1
      → Backed s k d names (pos 0) (record st1 { bank = bank })
  receive names bond yielded left st st1 bank zero same paid (fit, yields, locks) =
      let moves = λ (a : String).
        k.module_to_module-balance mint_farming_account yield_farming_account a d
          (of_amount bond yielded) st1.bank bank paid in
      (
        fit,
        ap (◌+ℤ pos 0) (moves yield_farming_account)
            ∙ arrives (balance st1.bank yield_farming_account d) (amount d (of_amount bond yielded))
            ∙ ap
                (λ n. balance st1.bank yield_farming_account d +ℤ (pos 0 +ℤ in_bond s k v d bond n))
                (sym (-ℤ_zero yielded) ∙ ap (λ n. yielded -ℤ n) (sym zero))
            ∙ yields,
        moves farm_account ∙ stays (balance st1.bank farm_account d) ∙ locks,
      )
    where
      arrives : (b n : ℤ) → b -ℤ pos 0 +ℤ n +ℤ pos 0 ≡ b +ℤ (pos 0 +ℤ n)
      arrives b n = omega int_laws

      stays : (b : ℤ) → b -ℤ pos 0 +ℤ pos 0 ≡ b
      stays b = omega int_laws

  distribute-Backed :
      (names ns : List String) (values : String → Option SdkDec) (pools : List (FarmPool s))
      (total : SdkDec) (bond : String) (yielded : SdkDec) (st st' : State s k)
      → distinct names ≡ true
      → Found s k v d names ns st pools total
      → Backed s k d names (pos 0) st
      → distribute s k v values pools total bond yielded st ≡ ok st'
      → Backed s k d names (pos 0) st'
  unfolding distribute
  distribute-Backed names ns values pools total bond yielded st st' nd (kn, ld, _, _) bk h =
      let ((left, st1), e1, h1) =
        >>=-eq-ok (allocate s k v values yielded total bond pools yielded st) _ h in
      let (zero, h2) = fail_if->>-eq-ok (not (is_zero_dec left)) _ _ h1 in
      let (bank, paid, h3) =
        or_fail->>=-eq-ok
          (k.module_to_module mint_farming_account yield_farming_account (of_amount bond yielded)
            st1.bank)
          _ _ h2 in
      let (bk1, same) =
        allocate-Backed s k v d names values yielded total bond pools yielded left (pos 0) st st1 nd
          kn ld bk e1 in
      subst (Backed s k d names (pos 0)) (ok-eq h3)
        (receive names bond yielded left st st1 bank (zero_of left zero) same paid bk1)

  if-ok :
      (t : Bool) (st st' : State s k) (rest : Result FarmError (State s k))
      → (if t then ok st else rest) ≡ ok st'
      → (st ≡ st') ⊎ (rest ≡ ok st')
  if-ok true st st' rest h = inl (ok-eq h)
  if-ok false st st' rest h = inr h

  allocate_yielded-Backed :
      (names ns : List String) (bond : String) (yielded : SdkDec) (st st' : State s k)
      → distinct names ≡ true
      → distinct ns ≡ true
      → all_occur ns names ≡ true
      → Backed s k d names (pos 0) st
      → allocate_yielded s k v bond ns yielded st ≡ ok st'
      → Backed s k d names (pos 0) st'
  unfolding allocate_yielded
  allocate_yielded-Backed names ns bond yielded st st' nd nd' sub bk h =
      let ((values, pools, total), e1, h1) = >>=-eq-ok (calculate_allocate_info s k v ns st) _ h in
      let found =
        calculate_allocate_info-Found s k v d names ns values pools total st bk.0 nd' sub e1 in
      elim (if-ok (is_not_positive total) st st' _ h1) [
        | inl e ↦ subst (Backed s k d names (pos 0)) e bk
        | inr h2 ↦ distribute-Backed names ns values pools total bond yielded st st' nd found bk h2
      ]

  burn_minted-Backed :
      (names : List String) (bond : String) (yielded : SdkDec) (st st' : State s k)
      → Backed s k d names (pos 0) st
      → burn_minted s k v bond yielded st ≡ ok st'
      → Backed s k d names (pos 0) st'
  burn_minted-Backed names bond yielded st st' (fit, yields, locks) h =
      let (bank, e, h1) =
        or_fail->>=-eq-ok (k.burn mint_farming_account (of_amount bond yielded) st.bank) _ _ h in
      let moves = λ (a : String).
        k.burn-balance mint_farming_account a d (of_amount bond yielded) st.bank bank e in
      subst (Backed s k d names (pos 0)) (ok-eq h1) (
        fit,
        ap (◌+ℤ pos 0) (moves yield_farming_account ∙ -ℤ_zero _) ∙ yields,
        moves farm_account ∙ -ℤ_zero _ ∙ locks,
      )

  -- BeginBlocker keeps the books: the pools are promised just what comes in for them.
  pub begin_blocker-Backed :
      (names ns : List String) (bond : String) (st st' : State s k)
      → distinct names ≡ true
      → distinct ns ≡ true
      → all_occur ns names ≡ true
      → Backed s k d names (pos 0) st
      → begin_blocker s k v bond ns st ≡ ok st'
      → Backed s k d names (pos 0) st'
  unfolding begin_blocker
  begin_blocker-Backed names ns bond st st' nd nd' sub bk h =
      let yielded = balance st.bank mint_farming_account bond in
      elim (if-ok (is_not_positive yielded) st st' _ h) [
        | inl e ↦ subst (Backed s k d names (pos 0)) e bk
        | inr h1 ↦ elim (Bool-cases (not st.params.yield_native_token)) [
          | inl t ↦ burn_minted-Backed names bond yielded st st' bk (rw t at h1)
          | inr t ↦ allocate_yielded-Backed names ns bond yielded st st' nd nd' sub bk (rw t at h1)
        ]
      ]

  -- Where calculateAllocateInfo finds no pool, the values add up to nothing.
  calculate_allocate_info-empty :
      (ns : List String) (values : String → Option SdkDec) (pools : List (FarmPool s))
      (total : SdkDec) (st : State s k)
      → calculate_allocate_info s k v ns st ≡ ok (values, pools, total)
      → pools ≡ []
      → total ≡ pos 0
  unfolding calculate_allocate_info
  calculate_allocate_info-empty [] values pools total st h none_found =
      sym (ap (λ x. x.2) (ok-eq h))
  calculate_allocate_info-empty (n ∷ ns) values pools total st h none_found =
      let (pool, _, h1) = or_fail->>=-eq-ok (st.pools n) _ _ h in
      let (value, _, h2) = >>=-eq-ok (get_pool_locked_value s k v pool st) _ h1 in
      let ((values1, pools1, total1), e3, h3) =
        >>=-eq-ok (calculate_allocate_info s k v ns st) _ h2 in
      elim (if-eq-ok (is_not_positive value) (values1, pools1, total1)
        (update values1 n (some value), pool ∷ pools1, value +ℤ total1) _ h3) [
          | inl e ↦
              ap (λ x. x.2) (sym e)
              ∙ calculate_allocate_info-empty ns values1 pools1 total1 st e3
                  (ap (λ x. x.1) e ∙ none_found)
          | inr e ↦ let absurdity = ap (λ x. x.1) e ∙ none_found in cc
        ]

  -- If the values of the pools that the whitelist names add up to more than zero, then the loop of
  -- BeginBlocker, where it ends, leaves nothing of the minted amount: the panic after it is not
  -- reached.
  pub allocate-leaves :
      (ns : List String) (values : String → Option SdkDec) (pools : List (FarmPool s))
      (total : SdkDec) (bond : String) (yielded left : SdkDec) (st st' : State s k)
      → calculate_allocate_info s k v ns st ≡ ok (values, pools, total)
      → leb_ℤ total (pos 0) ≡ false
      → allocate s k v values yielded total bond pools yielded st ≡ ok (left, st')
      → left ≡ pos 0
  allocate-leaves ns values pools total bond yielded left st st' info positive h =
      spends pools (calculate_allocate_info-empty ns values pools total st info) h
    where
      spends :
          (rest : List (FarmPool s))
          → (rest ≡ [] → total ≡ pos 0)
          → allocate s k v values yielded total bond rest yielded st ≡ ok (left, st')
          → left ≡ pos 0
      spends [] none_found h = let e = rw (none_found refl) at positive in cc
      spends (pool ∷ rest) none_found h =
          allocate-spends s k v values yielded total bond pool rest yielded left st st' h
