-- ===== src/Token/Backed.antt =====
-- The token module's account against the coins that are locked with it.
use Prim.Native.String.{String}
use okexchain.Base.{
  ◌≡◌, refl, sym, ap, ◌∙◌, ℤ, pos, ◌+ℤ◌, ◌-ℤ◌, int_laws, Bool, true, false, Bool-cases, inl, inr,
  List, Option, none, some, if◌then◌else◌, ok, >>=-eq-ok, or_fail-eq-ok, ok-eq, update, occurs,
  distinct, sum_over, sum_over-update,
}
use okexchain.Sdk.{DecMath}
use okexchain.Sdk.Sets.{CoinSets, ModuleBank}
use okexchain.Token.{
  LockCoinsType, quantity_lock, fee_lock, unknown_lock, Locks, new_coins, kept_coins,
  update_locked_coins,
}

module _ {m : DecMath} (s : CoinSets m) (k : ModuleBank s) (d : String) where
  open s use {Coins, amount, is_zero, is_empty}
  open k use {balance}

  -- What an account has locked.
  unfoldable pub locked : Option Coins → ℤ
  locked none = pos 0
  locked (some coins) = amount d coins

  -- What all of some accounts have locked, for orders and for fees.
  abbrev pub all_locked : List String → Locks s k → ℤ
  all_locked addrs st = sum_over locked addrs st.quantities +ℤ sum_over locked addrs st.fees

  abbrev pub signed : Bool → ℤ → ℤ
  signed do_add n = if do_add then n else (pos 0 -ℤ n)

  pub kept_coins-locked : (coins : Coins) → locked (kept_coins s k coins) ≡ amount d coins
  unfolding locked
  kept_coins-locked coins = elim (Bool-cases (is_empty coins)) [
    | inl t ↦ rw t (sym (s.amount-is_empty d coins t))
    | inr t ↦ rw t refl
  ]

  pub new_coins-amount :
      (do_add : Bool) (old : Option Coins) (coins kept : Coins)
      → new_coins s k do_add old coins ≡ ok kept
      → amount d kept ≡ locked old +ℤ signed do_add (amount d coins)
  unfolding locked
  new_coins-amount true none coins kept h =
      ap (amount d) (sym (ok-eq h)) ∙ from_zero (amount d coins)
    where
      from_zero : (a : ℤ) → a ≡ pos 0 +ℤ a
      from_zero a = omega int_laws
  new_coins-amount true (some old) coins kept h =
      ap (amount d) (sym (ok-eq h)) ∙ s.amount-add2 d old coins
  new_coins-amount false none coins kept h = cc
  new_coins-amount false (some old) coins kept h =
      s.amount-sub d old coins kept (or_fail-eq-ok (s.sub old coins) _ h)
      ∙ minus (amount d old) (amount d coins)
    where
      minus : (a n : ℤ) → a -ℤ n ≡ a +ℤ (pos 0 -ℤ n)
      minus a n = omega int_laws

  written :
      (addrs : List String) (f : String → Option Coins) (addr : String) (kept : Coins) (n : ℤ)
      → distinct addrs ≡ true
      → occurs addr addrs ≡ true
      → amount d kept ≡ locked (f addr) +ℤ n
      → sum_over locked addrs (update f addr (kept_coins s k kept)) ≡ sum_over locked addrs f +ℤ n
  written addrs f addr kept n nd mem e =
      sum_over-update locked addrs f addr (kept_coins s k kept) nd mem
      ∙ ap (◌+ℤ◌ (sum_over locked addrs f -ℤ locked (f addr))) (kept_coins-locked kept ∙ e)
      ∙ across (sum_over locked addrs f) (locked (f addr)) n
    where
      across : (a b c : ℤ) → a -ℤ b +ℤ (b +ℤ c) ≡ a +ℤ c
      across a b c = omega int_laws

  -- A change of the locked coins, with the bank as it was.
  pub update_locked_coins-all_locked :
      (addrs : List String) (addr : String) (coins : Coins) (do_add : Bool) (kind : LockCoinsType)
      (st st' : Locks s k)
      → distinct addrs ≡ true
      → occurs addr addrs ≡ true
      → update_locked_coins s k addr coins do_add kind st ≡ ok st'
      → (all_locked addrs st' ≡ all_locked addrs st +ℤ signed do_add (amount d coins))
        × (st'.bank ≡ st.bank)
  unfolding update_locked_coins
  update_locked_coins-all_locked addrs addr coins do_add quantity_lock st st' nd mem h =
      let (kept, e, h1) = >>=-eq-ok (new_coins s k do_add (st.quantities addr) coins) _ h in
      let end = sym (ok-eq h1) in
      (
        ap (all_locked addrs) end
            ∙ ap (◌+ℤ sum_over locked addrs st.fees) (
                written addrs st.quantities addr kept _ nd mem
                  (new_coins-amount do_add (st.quantities addr) coins kept e))
            ∙ turn (sum_over locked addrs st.quantities) _ (sum_over locked addrs st.fees),
        ap (λ x. x.bank) end,
      )
    where
      turn : (a n b : ℤ) → a +ℤ n +ℤ b ≡ a +ℤ b +ℤ n
      turn a n b = omega int_laws
  update_locked_coins-all_locked addrs addr coins do_add fee_lock st st' nd mem h =
      let (kept, e, h1) = >>=-eq-ok (new_coins s k do_add (st.fees addr) coins) _ h in
      let end = sym (ok-eq h1) in
      (
        ap (all_locked addrs) end
            ∙ ap (◌+ℤ◌ (sum_over locked addrs st.quantities)) (
                written addrs st.fees addr kept _ nd mem
                  (new_coins-amount do_add (st.fees addr) coins kept e))
            ∙ turn (sum_over locked addrs st.quantities) (sum_over locked addrs st.fees) _,
        ap (λ x. x.bank) end,
      )
    where
      turn : (a b n : ℤ) → a +ℤ (b +ℤ n) ≡ a +ℤ b +ℤ n
      turn a b n = omega int_laws
  update_locked_coins-all_locked addrs addr coins do_add unknown_lock st st' nd mem h = cc
