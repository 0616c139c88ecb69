-- ===== src/Order/Keeper/Booked.antt =====
-- What accounts have locked with x/token against their open orders: ModuleAccountInvariant of
-- x/order/keeper/invariant.go, and the same for the quantities.
pub mod Steps
pub mod Place
pub mod Quit
use Prim.Native.String.{String}
use text.Mathlib.Text.{◌==◌ as string_eq}
use okexchain.Base.{
  ◌≡◌, refl, sym, ap, ◌∙◌, ◌⊎◌, inl, inr, ℤ, pos, ◌+ℤ◌, ◌-ℤ◌, int_laws, +ℤ_zero, -ℤ_zero, Bool,
  true, false, ◌&&◌, Bool-cases, Option, none, some, if◌then◌else◌, Result, ok, err, ◌>>=◌,
  >>=-eq-ok, ok-eq, update, or_fail->>=-eq-ok, same_text,
}
use okexchain.Sdk.{DecMath}
use okexchain.Sdk.Sets.{CoinSets, ModuleBank}
use okexchain.Token.{
  LockCoinsType, quantity_lock, fee_lock, unknown_lock, Locks, new_coins, kept_coins,
  update_locked_coins, lock_coins, order_lock_coins, token_account, TokenError,
  send_coins_from_account_to_module_failed,
}
use okexchain.Token.Backed.{locked, signed, kept_coins-locked, new_coins-amount}
use okexchain.Order.Keeper.{Formats, order_unlock_coins, paid_by, add_collected_fees}

module _ {m : DecMath} (s : CoinSets m) (k : ModuleBank s) (d : String) where
  -- What the account has locked, for orders or for fees.
  unfoldable pub locked_by : Bool → Locks s k → String → ℤ
  locked_by true locks addr = locked s k d (locks.fees addr)
  locked_by false locks addr = locked s k d (locks.quantities addr)

  abbrev pub is_fee : LockCoinsType → Bool
  is_fee quantity_lock = false
  is_fee fee_lock = true
  is_fee unknown_lock = false

  abbrev pub both_same : Bool → Bool → Bool
  both_same true b = b
  both_same false true = false
  both_same false false = true

  -- What a change of one account's locks adds to another's.
  abbrev pub share : Bool → Bool → String → String → ℤ → ℤ
  share fee fee' addr addr' n =
      if both_same fee fee' then (if string_eq addr addr' then n else pos 0) else pos 0

  written :
      (f : String → Option s.Coins) (addr addr' : String) (coins kept : s.Coins) (n : ℤ)
      → s.amount d kept ≡ locked s k d (f addr) +ℤ n
      → locked s k d (update f addr (kept_coins s k kept) addr')
        ≡ locked s k d (f addr') +ℤ (if string_eq addr addr' then n else pos 0)
  written f addr addr' coins kept n e = elim (Bool-cases (string_eq addr addr')) [
    | inl t ↦
        rw t (kept_coins-locked s k d kept ∙ e ∙ ap (λ a. locked s k d (f a) +ℤ n) (same_text t))
    | inr t ↦ rw t (sym (+ℤ_zero (locked s k d (f addr'))))
  ]

  update_locked_coins-locked_by :
      (addr : String) (coins : s.Coins) (do_add : Bool) (kind : LockCoinsType) (fee : Bool)
      (addr' : String) (locks locks' : Locks s k)
      → update_locked_coins s k addr coins do_add kind locks ≡ ok locks'
      → locked_by fee locks' addr'
        ≡ locked_by fee locks addr'
          +ℤ share (is_fee kind) fee addr addr' (signed s k d do_add (s.amount d coins))
  unfolding update_locked_coins locked_by
  update_locked_coins-locked_by addr coins do_add quantity_lock true addr' locks locks' h =
      let (kept, e, h1) = >>=-eq-ok (new_coins s k do_add (locks.quantities addr) coins) _ h in
      ap (λ x. locked_by true x addr') (sym (ok-eq h1)) ∙ sym (+ℤ_zero _)
  update_locked_coins-locked_by addr coins do_add quantity_lock false addr' locks locks' h =
      let (kept, e, h1) = >>=-eq-ok (new_coins s k do_add (locks.quantities addr) coins) _ h in
      ap (λ x. locked_by false x addr') (sym (ok-eq h1))
      ∙ written locks.quantities addr addr' coins kept _
          (new_coins-amount s k d do_add (locks.quantities addr) coins kept e)
  update_locked_coins-locked_by addr coins do_add fee_lock false addr' locks locks' h =
      let (kept, e, h1) = >>=-eq-ok (new_coins s k do_add (locks.fees addr) coins) _ h in
      ap (λ x. locked_by false x addr') (sym (ok-eq h1)) ∙ sym (+ℤ_zero _)
  update_locked_coins-locked_by addr coins do_add fee_lock true addr' locks locks' h =
      let (kept, e, h1) = >>=-eq-ok (new_coins s k do_add (locks.fees addr) coins) _ h in
      ap (λ x. locked_by true x addr') (sym (ok-eq h1))
      ∙ written locks.fees addr addr' coins kept _
          (new_coins-amount s k d do_add (locks.fees addr) coins kept e)
  update_locked_coins-locked_by addr coins do_add unknown_lock fee addr' locks locks' h = cc

  none_added :
      (fee fee' : Bool) (addr addr' : String) (coins : s.Coins) (a : ℤ)
      → s.is_zero coins ≡ true
      → a ≡ a +ℤ share fee fee' addr addr' (s.amount d coins)
  none_added fee fee' addr addr' coins a h =
      sym (+ℤ_zero a)
      ∙ ap (◌+ℤ◌ a) (
          sym (
            nothing (both_same fee fee') (string_eq addr addr') (s.amount d coins)
              (s.amount-is_zero d coins h)))
    where
      nothing :
          (p q : Bool) (n : ℤ) → n ≡ pos 0 → (if p then (if q then n else pos 0) else pos 0) ≡ pos 0
      nothing true true n e = e
      nothing true false n e = refl
      nothing false q n e = refl

  pub order_lock_coins-locked_by :
      (addr : String) (coins : s.Coins) (kind : LockCoinsType) (fee : Bool) (addr' : String)
      (locks locks' : Locks s k)
      → order_lock_coins s k addr coins kind locks ≡ ok locks'
      → locked_by fee locks' addr'
        ≡ locked_by fee locks addr' +ℤ share (is_fee kind) fee addr addr' (s.amount d coins)
  unfolding order_lock_coins lock_coins locked_by
  order_lock_coins-locked_by addr coins kind fee addr' locks locks' h =
      elim (Bool-cases (s.is_zero coins)) [
        | inl t ↦
            ap (λ x. locked_by fee x addr') (sym (ok-eq (rw t at h)))
            ∙ none_added (is_fee kind) fee addr addr' coins _ t
        | inr t ↦
            let (bank, _, h1) =
              or_fail->>=-eq-ok (k.account_to_module addr token_account coins locks.bank) _ _
                (rw t at h) in
            update_locked_coins-locked_by addr coins true kind fee addr'
              (record locks { bank = bank }) locks' h1
            ∙ ap (λ n. n +ℤ share (is_fee kind) fee addr addr' (s.amount d coins))
                (bank_aside fee addr' locks bank)
      ]
    where
      bank_aside :
          (fee : Bool) (addr' : String) (locks : Locks s k) (bank : k.Bank)
          → locked_by fee (record locks { bank = bank }) addr' ≡ locked_by fee locks addr'
      bank_aside true addr' locks bank = refl
      bank_aside false addr' locks bank = refl

  -- The coins are nothing, or the account has that much locked: x/token takes them off.
  abbrev pub HasLocked : String → s.Coins → LockCoinsType → Locks s k → Type 0
  HasLocked addr coins kind locks =
      (s.is_zero coins ≡ true)
      ⊎ ((locks' : Locks s k) × (update_locked_coins s k addr coins false kind locks ≡ ok locks'))

  same_books :
      (fee : Bool) (addr : String) (locks : Locks s k) (bank : k.Bank)
      → locked_by fee (record locks { bank = bank }) addr ≡ locked_by fee locks addr
  unfolding locked_by
  same_books true addr locks bank = refl
  same_books false addr locks bank = refl

  paid_by-locked_by :
      (fmt : Formats) (collector : String) (fee : Bool) (addr : String) (locks : Locks s k)
      (o : Option k.Bank)
      → locked_by fee (paid_by s k fmt collector locks o) addr ≡ locked_by fee locks addr
  paid_by-locked_by fmt collector fee addr locks none = refl
  paid_by-locked_by fmt collector fee addr locks (some bank) = same_books fee addr locks bank

  nothing_unlocked :
      (fmt : Formats) (collector addr : String) (coins : s.Coins) (kind : LockCoinsType)
      (fee : Bool) (addr' : String) (locks : Locks s k)
      → s.is_zero coins ≡ true
      → locked_by fee (order_unlock_coins s k fmt collector addr coins kind locks) addr'
        ≡ locked_by fee locks addr'
          +ℤ share (is_fee kind) fee addr addr' (pos 0 -ℤ s.amount d coins)
  unfolding order_unlock_coins
  nothing_unlocked fmt collector addr coins kind fee addr' locks t = rw t (
      none_added (is_fee kind) fee addr addr' coins _ t
      ∙ ap (λ n. locked_by fee locks addr' +ℤ share (is_fee kind) fee addr addr' n)
          (negated (s.amount d coins) (s.amount-is_zero d coins t)))
    where
      negated : (n : ℤ) → n ≡ pos 0 → n ≡ pos 0 -ℤ n
      negated n e = e ∙ sym (ap (λ x. pos 0 -ℤ x) e ∙ -ℤ_zero (pos 0))

  pub order_unlock_coins-locked_by :
      (fmt : Formats) (collector addr : String) (coins : s.Coins) (kind : LockCoinsType)
      (fee : Bool) (addr' : String) (locks : Locks s k)
      → HasLocked addr coins kind locks
      → locked_by fee (order_unlock_coins s k fmt collector addr coins kind locks) addr'
        ≡ locked_by fee locks addr'
          +ℤ share (is_fee kind) fee addr addr' (pos 0 -ℤ s.amount d coins)
  unfolding order_unlock_coins
  order_unlock_coins-locked_by fmt collector addr coins kind fee addr' locks (inl t) =
      nothing_unlocked fmt collector addr coins kind fee addr' locks t
  order_unlock_coins-locked_by fmt collector addr coins kind fee addr' locks (inr (locks', e)) =
      elim (Bool-cases (s.is_zero coins)) [
        | inl t ↦ nothing_unlocked fmt collector addr coins kind fee addr' locks t
        | inr t ↦ rw t (
            rw e (
              paid_by-locked_by fmt collector fee addr' locks'
                (k.module_to_account token_account addr coins locks'.bank)
              ∙ update_locked_coins-locked_by addr coins false kind fee addr' locks locks' e))
      ]

  pub add_collected_fees-locked_by :
      (fmt : Formats) (collector : String) (coins : s.Coins) (from : String) (fee : Bool)
      (addr : String) (locks : Locks s k)
      → locked_by fee (add_collected_fees s k fmt collector coins from locks) addr
        ≡ locked_by fee locks addr
  unfolding add_collected_fees
  add_collected_fees-locked_by fmt collector coins from fee addr locks =
      elim (Bool-cases (s.is_zero coins)) [
        | inl t ↦ rw t
        | inr t ↦ rw t (
            paid_by-locked_by fmt collector fee addr locks
              (k.account_to_module from collector coins locks.bank))
      ]
