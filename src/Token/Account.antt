-- ===== src/Token/Account.antt =====
-- The token module's account through LockCoins, UnlockCoins and BalanceAccount.
use Prim.Native.String.{String}
use okexchain.Base.{
  ◌≡◌, sym, ap, ◌∙◌, ℤ, pos, ◌+ℤ◌, ◌-ℤ◌, int_laws, +ℤ_zero, -ℤ_zero, true, false, Bool-cases, inl,
  inr, List, Result, ok, err, >>=-eq-ok, or_fail->>=-eq-ok, ok-eq, occurs, distinct,
}
use okexchain.Sdk.{DecMath}
use okexchain.Sdk.Sets.{CoinSets, ModuleBank}
use okexchain.Token.{
  token_account, LockCoinsType, quantity_lock, TokenError, Locks, update_locked_coins, lock_coins,
  unlock_coins, one_error, give_output, take_input, balance_account,
}
use okexchain.Token.Backed.{all_locked, update_locked_coins-all_locked}

module _ {m : DecMath} (s : CoinSets m) (k : ModuleBank s) (d : String) where
  open s use {Coins, amount, is_zero}
  open k use {balance}

  -- What the account holds beyond the locked coins.
  abbrev pub surplus : List String → Locks s k → ℤ
  surplus addrs st = balance st.bank token_account d -ℤ all_locked s k d addrs st

  -- If LockCoins succeeds for one of some distinct accounts, the token module's account holds as much
  -- beyond what those accounts have locked, for orders and for fees, as before.
  pub lock_coins-surplus :
      (addrs : List String) (addr : String) (coins : Coins) (kind : LockCoinsType)
      (st st' : Locks s k)
      → distinct addrs ≡ true
      → occurs addr addrs ≡ true
      → lock_coins s k addr coins kind st ≡ ok st'
      → surplus addrs st' ≡ surplus addrs st
  unfolding lock_coins
  lock_coins-surplus addrs addr coins kind st st' nd mem h =
      let (bank, e, h1) =
        or_fail->>=-eq-ok (k.account_to_module addr token_account coins st.bank) _ _ h in
      let (locks, same) =
        update_locked_coins-all_locked s k d addrs addr coins true kind (record st { bank = bank })
          st' nd mem h1 in
      ap (λ b. balance b token_account d -ℤ all_locked s k d addrs st') same
      ∙ ap (λ n. n -ℤ all_locked s k d addrs st')
          (k.account_to_module-balance addr token_account token_account d coins st.bank bank e)
      ∙ ap (λ n. balance st.bank token_account d +ℤ amount d coins -ℤ n) locks
      ∙ both (balance st.bank token_account d) (amount d coins) (all_locked s k d addrs st)
    where
      both : (a n b : ℤ) → a +ℤ n -ℤ (b +ℤ n) ≡ a -ℤ b
      both a n b = omega int_laws

  -- If UnlockCoins succeeds for one of some distinct accounts, the token module's account holds as much
  -- beyond what those accounts have locked as before.
  pub unlock_coins-surplus :
      (addrs : List String) (addr : String) (coins : Coins) (kind : LockCoinsType)
      (st st' : Locks s k)
      → distinct addrs ≡ true
      → occurs addr addrs ≡ true
      → unlock_coins s k addr coins kind st ≡ ok st'
      → surplus addrs st' ≡ surplus addrs st
  unfolding unlock_coins
  unlock_coins-surplus addrs addr coins kind st st' nd mem h =
      let (st1, e1, h1) = >>=-eq-ok (update_locked_coins s k addr coins false kind st) _ h in
      let (bank, e2, h2) =
        or_fail->>=-eq-ok (k.module_to_account token_account addr coins st1.bank) _ _ h1 in
      let (locks, same) =
        update_locked_coins-all_locked s k d addrs addr coins false kind st st1 nd mem e1 in
      ap (surplus addrs) (sym (ok-eq h2))
      ∙ ap (λ n. n -ℤ all_locked s k d addrs st1)
          (k.module_to_account-balance addr token_account token_account d coins st1.bank bank e2
            ∙ ap (λ b. balance b token_account d -ℤ amount d coins) same)
      ∙ ap (λ n. balance st.bank token_account d -ℤ amount d coins -ℤ n) locks
      ∙ both (balance st.bank token_account d) (amount d coins) (all_locked s k d addrs st)
    where
      both : (a n b : ℤ) → a -ℤ n -ℤ (b +ℤ (pos 0 -ℤ n)) ≡ a -ℤ b
      both a n b = omega int_laws

  one_error-ok :
      (r : Result TokenError (Locks s k)) (st : Locks s k) → one_error s k r ≡ ok st → r ≡ ok st
  one_error-ok (err e) st h = cc
  one_error-ok (ok a) st h = h

  give_output-surplus :
      (addrs : List String) (addr : String) (output : Coins) (st st' : Locks s k)
      → distinct addrs ≡ true
      → occurs addr addrs ≡ true
      → give_output s k addr output st ≡ ok st'
      → surplus addrs st' ≡ surplus addrs st +ℤ amount d output
  give_output-surplus addrs addr output st st' nd mem h = elim (Bool-cases (is_zero output)) [
    | inl t ↦
        ap (surplus addrs) (sym (ok-eq (rw t at h)))
        ∙ sym (+ℤ_zero _)
        ∙ ap (◌+ℤ◌ (surplus addrs st)) (sym (s.amount-is_zero d output t))
    | inr t ↦
        let done =
          one_error-ok (update_locked_coins s k addr output false quantity_lock st) st'
            (rw t at h) in
        let (locks, same) =
          update_locked_coins-all_locked s k d addrs addr output false quantity_lock st st' nd mem
            done in
        ap (λ b. balance b token_account d -ℤ all_locked s k d addrs st') same
        ∙ ap (λ n. balance st.bank token_account d -ℤ n) locks
        ∙ turn (balance st.bank token_account d) (all_locked s k d addrs st) (amount d output)
  ]
    where
      turn : (a b n : ℤ) → a -ℤ (b +ℤ (pos 0 -ℤ n)) ≡ a -ℤ b +ℤ n
      turn a b n = omega int_laws

  take_input-surplus :
      (addrs : List String) (addr : String) (input : Coins) (st st' : Locks s k)
      → take_input s k addr input st ≡ ok st'
      → surplus addrs st' ≡ surplus addrs st -ℤ amount d input
  take_input-surplus addrs addr input st st' h = elim (Bool-cases (is_zero input)) [
    | inl t ↦
        ap (surplus addrs) (sym (ok-eq (rw t at h)))
        ∙ sym (-ℤ_zero _)
        ∙ ap (λ n. surplus addrs st -ℤ n) (sym (s.amount-is_zero d input t))
    | inr t ↦
        let (bank, e, h1) =
          or_fail->>=-eq-ok (k.module_to_account token_account addr input st.bank) _ _
            (rw t at h) in
        ap (surplus addrs) (sym (ok-eq h1))
        ∙ ap (λ n. n -ℤ all_locked s k d addrs st)
            (k.module_to_account-balance addr token_account token_account d input st.bank bank e)
        ∙ turn (balance st.bank token_account d) (amount d input) (all_locked s k d addrs st)
  ]
    where
      turn : (a n b : ℤ) → a -ℤ n -ℤ b ≡ a -ℤ b -ℤ n
      turn a n b = omega int_laws

  -- If BalanceAccount succeeds for one of some distinct accounts, what the token module's account holds
  -- beyond what those accounts have locked grows by the coins given and falls by the coins received.
  pub balance_account-surplus :
      (addrs : List String) (addr : String) (output input : Coins) (st st' : Locks s k)
      → distinct addrs ≡ true
      → occurs addr addrs ≡ true
      → balance_account s k addr output input st ≡ ok st'
      → surplus addrs st' ≡ surplus addrs st +ℤ amount d output -ℤ amount d input
  unfolding balance_account
  balance_account-surplus addrs addr output input st st' nd mem h =
      let (st1, e1, h1) = >>=-eq-ok (give_output s k addr output st) _ h in
      take_input-surplus addrs addr input st1 st' h1
      ∙ ap (◌-ℤ amount d input) (give_output-surplus addrs addr output st st1 nd mem e1)
