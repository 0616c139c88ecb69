-- ===== src/Token.antt =====
-- x/token/keeper.go: the coins that accounts have locked with the token module, for the quantities of
-- their orders and for the fees.
pub mod Backed
pub mod Account
use Prim.Native.String.{String}
use okexchain.Base.{
  Bool, true, false, Option, none, some, if◌then◌else◌, Result, ok, err, ◌>>=◌, or_fail, update,
}
use okexchain.Sdk.{DecMath}
use okexchain.Sdk.Sets.{CoinSets, ModuleBank}

-- ModuleName
abbrev pub token_account : String
token_account = "token"

-- LockCoinsTypeQuantity, LockCoinsTypeFee, and any other number
pub data LockCoinsType : Type 0 where
  quantity_lock fee_lock unknown_lock : LockCoinsType

pub data TokenError : Type 0 where
  unrecognized_lock_coins_type failed_to_unlock_address update_locked_coins_failed : TokenError
  send_coins_from_account_to_module_failed : TokenError
  send_coins_from_module_to_account_failed send_coins_failed : TokenError

module _ {m : DecMath} (s : CoinSets m) (k : ModuleBank s) where
  open s use {Coins, add2, sub, is_zero, is_empty}

  -- The lock store under its two prefixes, and the bank.
  pub record Locks : Type 0 where
    pub quantities : String → Option Coins
    pub fees : String → Option Coins
    pub bank : k.Bank

  -- What is kept after a change. SafeSub reports a negative difference just where Sub panics.
  abbrev pub new_coins : Bool → Option Coins → Coins → Result TokenError Coins
  new_coins true none coins = ok coins
  new_coins true (some old) coins = ok (add2 old coins)
  new_coins false none coins = err failed_to_unlock_address
  new_coins false (some old) coins = or_fail (sub old coins) failed_to_unlock_address

  abbrev pub kept_coins : Coins → Option Coins
  kept_coins coins = if is_empty coins then none else some coins

  -- updateLockedCoins. The sort of the new coins moves none of their amounts.
  unfoldable pub update_locked_coins :
      String → Coins → Bool → LockCoinsType → Locks → Result TokenError Locks
  update_locked_coins addr coins do_add quantity_lock st = do
    kept ← new_coins do_add (st.quantities addr) coins
    ok (record st { quantities = update st.quantities addr (kept_coins kept) })
  update_locked_coins addr coins do_add fee_lock st = do
    kept ← new_coins do_add (st.fees addr) coins
    ok (record st { fees = update st.fees addr (kept_coins kept) })
  update_locked_coins addr coins do_add unknown_lock st = err unrecognized_lock_coins_type

  -- LockCoins
  unfoldable pub lock_coins : String → Coins → LockCoinsType → Locks → Result TokenError Locks
  lock_coins addr coins kind st = do
    bank ←
        or_fail (k.account_to_module addr token_account coins st.bank)
          send_coins_from_account_to_module_failed
    update_locked_coins addr coins true kind (record st { bank = bank })

  -- UnlockCoins
  unfoldable pub unlock_coins : String → Coins → LockCoinsType → Locks → Result TokenError Locks
  unlock_coins addr coins kind st = do
    st1 ← update_locked_coins addr coins false kind st
    bank ←
        or_fail (k.module_to_account token_account addr coins st1.bank)
          send_coins_from_module_to_account_failed
    ok (record st1 { bank = bank })

  -- ErrUpdateLockedCoins, whatever the error was.
  abbrev pub one_error : Result TokenError Locks → Result TokenError Locks
  one_error (err e) = err update_locked_coins_failed
  one_error (ok st) = ok st

  -- The first step of BalanceAccount
  abbrev pub give_output : String → Coins → Locks → Result TokenError Locks
  give_output addr output st =
      if is_zero output
      then ok st
      else one_error (update_locked_coins addr output false quantity_lock st)

  abbrev pub take_input : String → Coins → Locks → Result TokenError Locks
  take_input addr input st = if is_zero input then ok st else (do
    bank ← or_fail (k.module_to_account token_account addr input st.bank) send_coins_failed
    ok (record st { bank = bank }))

  -- BalanceAccount
  unfoldable pub balance_account : String → Coins → Coins → Locks → Result TokenError Locks
  balance_account addr output input st = do
    st1 ← give_output addr output st
    take_input addr input st1

  -- LockCoins of x/order/keeper/keeper.go, which does nothing for coins of nothing
  unfoldable pub order_lock_coins : String → Coins → LockCoinsType → Locks → Result TokenError Locks
  order_lock_coins addr coins kind st =
      if is_zero coins then ok st else lock_coins addr coins kind st
