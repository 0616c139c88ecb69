-- ===== src/Tests/Token.antt =====
-- An account that locks coins, trades some of them and unlocks others.

use okexchain.Base.{◌≡◌, refl, ℤ, pos, ◌+ℤ◌, ◌-ℤ◌, [], ◌∷◌, none, Result, ok, err, occurs, distinct}
use okexchain.Token.{
  Locks, TokenError, quantity_lock, lock_coins, unlock_coins, balance_account, update_locked_coins,
}
use okexchain.Token.Account.{
  surplus, lock_coins-surplus, unlock_coins-surplus, balance_account-surplus,
}
use okexchain.Tests.Farm.{coin_sets, module_bank}

abbrev Store : Type 0
Store = Locks coin_sets module_bank

unfoldable start : Store
unfolding coin_sets module_bank
start = record { quantities = λ addr. none; fees = λ addr. none; bank = λ account denom. pos 0 }

unfoldable coins_of : ℤ → coin_sets.Coins
unfolding coin_sets
coins_of n = λ denom. n

abbrev after_of : Result TokenError Store → Store
after_of (ok st) = st
after_of (err e) = start

abbrev locked_nine : Store
locked_nine =
    after_of (lock_coins coin_sets module_bank "ann" (coins_of (pos 9)) quantity_lock start)

abbrev traded : Store
traded =
    after_of (
      balance_account coin_sets module_bank "ann" (coins_of (pos 4)) (coins_of (pos 2)) locked_nine)

abbrev unlocked : Store
unlocked =
    after_of (unlock_coins coin_sets module_bank "ann" (coins_of (pos 5)) quantity_lock traded)

locked_ok :
    lock_coins coin_sets module_bank "ann" (coins_of (pos 9)) quantity_lock start ≡ ok locked_nine
unfolding start coins_of coin_sets module_bank lock_coins update_locked_coins
locked_ok = refl

traded_ok :
    balance_account coin_sets module_bank "ann" (coins_of (pos 4)) (coins_of (pos 2)) locked_nine
    ≡ ok traded
unfolding start coins_of coin_sets module_bank lock_coins update_locked_coins balance_account
traded_ok = refl

unlocked_ok :
    unlock_coins coin_sets module_bank "ann" (coins_of (pos 5)) quantity_lock traded ≡ ok unlocked
unfolding start coins_of coin_sets module_bank lock_coins update_locked_coins balance_account
    unlock_coins
unlocked_ok = refl

lock_coins-surplus_example :
    surplus coin_sets module_bank "okt" ("ann" ∷ []) locked_nine
    ≡ surplus coin_sets module_bank "okt" ("ann" ∷ []) start
unfolding distinct occurs
lock_coins-surplus_example =
    lock_coins-surplus coin_sets module_bank "okt" ("ann" ∷ []) "ann" (coins_of (pos 9))
      quantity_lock start locked_nine refl refl locked_ok

unlock_coins-surplus_example :
    surplus coin_sets module_bank "okt" ("ann" ∷ []) unlocked
    ≡ surplus coin_sets module_bank "okt" ("ann" ∷ []) traded
unfolding distinct occurs
unlock_coins-surplus_example =
    unlock_coins-surplus coin_sets module_bank "okt" ("ann" ∷ []) "ann" (coins_of (pos 5))
      quantity_lock traded unlocked refl refl unlocked_ok

balance_account-surplus_example :
    surplus coin_sets module_bank "okt" ("ann" ∷ []) traded
    ≡ surplus coin_sets module_bank "okt" ("ann" ∷ []) locked_nine
      +ℤ coin_sets.amount "okt" (coins_of (pos 4))
      -ℤ coin_sets.amount "okt" (coins_of (pos 2))
unfolding distinct occurs
balance_account-surplus_example =
    balance_account-surplus coin_sets module_bank "okt" ("ann" ∷ []) "ann" (coins_of (pos 4))
      (coins_of (pos 2)) locked_nine traded refl refl traded_ok
