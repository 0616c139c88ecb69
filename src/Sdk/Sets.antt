-- ===== src/Sdk/Sets.antt =====
-- Sets of coins (sdk.SysCoins) and the accounts of the modules, as the farm and token modules use them. Both
-- belong to cosmos-sdk, so they are parameters with the laws that the SDK documents.
use Prim.Native.String.{String}
use text.Mathlib.Text.{◌==◌ as string_eq}
use okexchain.Base.{◌≡◌, pos, ◌+ℤ◌, ◌-ℤ◌, ◌≤ℤ◌, Bool, true, Option, some, if◌then◌else◌}
use okexchain.Sdk.{SdkDec, DecMath}

-- A set says how much it holds of each denomination. Sub panics, as `none`, where a difference
-- would be negative.
pub record CoinSets (m : DecMath) : Type 1 where
  pub Coins : Type 0
  pub amount : String → Coins → SdkDec
  pub empty : Coins
  -- NewDecCoinsFromDec and ToCoins
  pub of_amount : String → SdkDec → Coins
  pub add2 : Coins → Coins → Coins
  pub sub : Coins → Coins → Option Coins
  pub mul_dec_truncate : Coins → SdkDec → Coins
  pub quo_dec_truncate : Coins → SdkDec → Coins
  pub is_zero : Coins → Bool
  pub is_all_lt : Coins → Coins → Bool
  -- A set of no coins, which is not the same as coins of nothing.
  pub is_empty : Coins → Bool
  pub amount-empty : (d : String) → amount d empty ≡ pos 0
  pub amount-of_amount :
      (d e : String) (a : SdkDec) → amount d (of_amount e a) ≡ (if string_eq e d then a else pos 0)
  pub amount-add2 : (d : String) (x y : Coins) → amount d (add2 x y) ≡ amount d x +ℤ amount d y
  pub amount-sub :
      (d : String) (x y z : Coins) → sub x y ≡ some z → amount d z ≡ amount d x -ℤ amount d y
  pub amount-mul_dec_truncate :
      (d : String) (x : Coins) (a : SdkDec)
      → amount d (mul_dec_truncate x a) ≡ m.mul_truncate (amount d x) a
  pub amount-quo_dec_truncate :
      (d : String) (x : Coins) (a : SdkDec)
      → amount d (quo_dec_truncate x a) ≡ m.quo_truncate (amount d x) a
  pub amount-is_empty : (d : String) (x : Coins) → is_empty x ≡ true → amount d x ≡ pos 0
  pub amount-is_zero : (d : String) (x : Coins) → is_zero x ≡ true → amount d x ≡ pos 0

-- What goes into or out of the account `b` when the account `a` is named.
abbrev pub at_account : String → String → SdkDec → SdkDec
at_account a b n = if string_eq a b then n else pos 0

-- The bank with its module accounts, named by texts. A transfer that succeeds moves exactly its
-- coins.
pub record ModuleBank {m : DecMath} (s : CoinSets m) : Type 1 where
  pub Bank : Type 0
  pub balance : Bank → String → String → SdkDec
  pub account_to_module : String → String → s.Coins → Bank → Option Bank
  pub module_to_account : String → String → s.Coins → Bank → Option Bank
  pub module_to_module : String → String → s.Coins → Bank → Option Bank
  pub burn : String → s.Coins → Bank → Option Bank
  pub account_to_module-balance :
      (u a b d : String) (x : s.Coins) (bank bank' : Bank)
      → account_to_module u a x bank ≡ some bank'
      → balance bank' b d ≡ balance bank b d +ℤ at_account a b (s.amount d x)
  pub module_to_account-balance :
      (u a b d : String) (x : s.Coins) (bank bank' : Bank)
      → module_to_account a u x bank ≡ some bank'
      → balance bank' b d ≡ balance bank b d -ℤ at_account a b (s.amount d x)
  pub module_to_module-balance :
      (a a' b d : String) (x : s.Coins) (bank bank' : Bank)
      → module_to_module a a' x bank ≡ some bank'
      → balance bank' b d
        ≡ balance bank b d -ℤ at_account a b (s.amount d x) +ℤ at_account a' b (s.amount d x)
  pub burn-balance :
      (a b d : String) (x : s.Coins) (bank bank' : Bank)
      → burn a x bank ≡ some bank'
      → balance bank' b d ≡ balance bank b d -ℤ at_account a b (s.amount d x)

-- The account of a module pays whatever it holds enough for.
abbrev pub PaysWhatItHolds : {m : DecMath} (s : CoinSets m) → ModuleBank s → Type 0
PaysWhatItHolds s k =
    (a u : String) (x : s.Coins) (bank : k.Bank)
    → ((d : String) → s.amount d x ≤ℤ k.balance bank a d)
    → (bank' : k.Bank) × (k.module_to_account a u x bank ≡ some bank')
