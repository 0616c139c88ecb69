-- ===== src/Sdk.antt =====
-- What the modules take from cosmos-sdk: the fixed-point numbers of `types/decimal.go`, coins, and
-- the supply keeper. The SDK is a dependency that the repository does not hold. A number is the
-- integer count of its smallest units; sums, differences and comparisons are those of the integers.
-- All else is a parameter with the laws that the SDK documents.
pub mod Coins
pub mod Sets
use Prim.Native.String.{String}
use text.Mathlib.Text.{◌==◌ as string_eq}
use okexchain.Base.{
  ℕ, ◌*◌, ◌/◌, ◌<◌, ◌≡◌, ◌≢◌, ℤ, pos, ◌+ℤ◌, ◌-ℤ◌, ◌≤ℤ◌, ◌<ℤ◌, ltb_ℤ, Bool, List, [], ◌∷◌, Option,
  none, some, if◌then◌else◌,
}

abbrev pub SdkDec : Type 0
SdkDec = ℤ

pub record DecMath : Type 0 where
  -- 10 ^ Precision, the units in 1
  pub unit : ℕ
  pub unit_pos : 0 < unit
  -- Mul and Quo round to the nearest unit, MulTruncate and QuoTruncate towards zero.
  pub mul : SdkDec → SdkDec → SdkDec
  pub quo : SdkDec → SdkDec → SdkDec
  pub mul_truncate : SdkDec → SdkDec → SdkDec
  pub quo_truncate : SdkDec → SdkDec → SdkDec
  -- RoundDecimal keeps that many decimal places.
  pub round_decimal : SdkDec → ℤ → SdkDec
  pub mul_truncate-pos : (a b : ℕ) → mul_truncate (pos a) (pos b) ≡ pos (a * b / unit)
  pub quo_truncate-pos : (a b : ℕ) → 0 < b → quo_truncate (pos a) (pos b) ≡ pos (a * unit / b)

-- sdk.SysCoin
pub record Coin : Type 0 where
  pub denom : String
  pub amount : SdkDec

abbrev pub coin : String → SdkDec → Coin
coin denom amount = record { denom = denom; amount = amount }

-- The amount of `denom` in some coins.
unfoldable pub amount_of : String → List Coin → SdkDec
amount_of d [] = pos 0
amount_of d (c ∷ cs) = (if string_eq c.denom d then c.amount else pos 0) +ℤ amount_of d cs

-- Add and Sub of a coin panic where the denominations differ, and Sub where the difference would be
-- negative; `none` is that panic. Sort moves coins about.
pub record CoinMath : Type 0 where
  pub coin_add : Coin → Coin → Option Coin
  pub coin_sub : Coin → Coin → Option Coin
  -- IsLT, which panics where the denominations differ
  pub coin_is_lt : Coin → Coin → Option Bool
  pub sort : List Coin → List Coin
  pub coin_add-same :
      (d : String) (a b : ℤ) → coin_add (coin d a) (coin d b) ≡ some (coin d (a +ℤ b))
  pub coin_add-ne : (x y : Coin) → x.denom ≢ y.denom → coin_add x y ≡ none
  pub coin_sub-same :
      (d : String) (a b : ℤ) → b ≤ℤ a → coin_sub (coin d a) (coin d b) ≡ some (coin d (a -ℤ b))
  pub coin_sub-short : (d : String) (a b : ℤ) → a <ℤ b → coin_sub (coin d a) (coin d b) ≡ none
  pub coin_sub-ne : (x y : Coin) → x.denom ≢ y.denom → coin_sub x y ≡ none
  pub coin_is_lt-same : (d : String) (a b : ℤ) → coin_is_lt (coin d a) (coin d b) ≡ some (ltb_ℤ a b)
  pub coin_is_lt-ne : (x y : Coin) → x.denom ≢ y.denom → coin_is_lt x y ≡ none
  pub amount_of-sort : (d : String) (cs : List Coin) → amount_of d (sort cs) ≡ amount_of d cs

-- The bank as one module sees it: its own account, those of users, and the supply. A transfer that
-- is not covered fails; one that succeeds moves exactly its coins.
pub record SupplyKeeper : Type 1 where
  pub Bank : Type 0
  pub module_balance : Bank → String → SdkDec
  pub user_balance : Bank → String → String → SdkDec
  pub supply_of : Bank → String → SdkDec
  pub has_sufficient_coins : Bank → String → List Coin → Bool
  -- Whether an address is that of the module's account
  pub is_own : String → Bool
  -- SendCoinsFromAccountToModule, SendCoinsFromModuleToAccount, MintCoins and BurnCoins. The account of
  -- a module signs no message, so the two transfers with a signer move what they name.
  pub send_to_module : String → List Coin → Bank → Option Bank
  pub send_from_module : String → List Coin → Bank → Option Bank
  -- SendCoinsFromModuleToAccount to an address that a message names, which may be the module's own:
  -- then the transfer moves nothing.
  pub send_to_recipient : String → List Coin → Bank → Option Bank
  pub mint_coins : List Coin → Bank → Option Bank
  pub burn_coins : List Coin → Bank → Option Bank
  pub send_to_module-module :
      (u : String) (cs : List Coin) (b b' : Bank) (d : String)
      → send_to_module u cs b ≡ some b'
      → module_balance b' d ≡ module_balance b d +ℤ amount_of d cs
  pub send_from_module-module :
      (u : String) (cs : List Coin) (b b' : Bank) (d : String)
      → send_from_module u cs b ≡ some b'
      → module_balance b' d ≡ module_balance b d -ℤ amount_of d cs
  pub send_to_recipient-module :
      (u : String) (cs : List Coin) (b b' : Bank) (d : String)
      → send_to_recipient u cs b ≡ some b'
      → module_balance b' d ≡ module_balance b d -ℤ (if is_own u then pos 0 else amount_of d cs)
  pub send_to_module-supply :
      (u : String) (cs : List Coin) (b b' : Bank) (d : String)
      → send_to_module u cs b ≡ some b'
      → supply_of b' d ≡ supply_of b d
  pub send_from_module-supply :
      (u : String) (cs : List Coin) (b b' : Bank) (d : String)
      → send_from_module u cs b ≡ some b'
      → supply_of b' d ≡ supply_of b d
  pub mint_coins-module :
      (cs : List Coin) (b b' : Bank) (d : String)
      → mint_coins cs b ≡ some b'
      → module_balance b' d ≡ module_balance b d +ℤ amount_of d cs
  pub mint_coins-supply :
      (cs : List Coin) (b b' : Bank) (d : String)
      → mint_coins cs b ≡ some b'
      → supply_of b' d ≡ supply_of b d +ℤ amount_of d cs
  pub burn_coins-module :
      (cs : List Coin) (b b' : Bank) (d : String)
      → burn_coins cs b ≡ some b'
      → module_balance b' d ≡ module_balance b d -ℤ amount_of d cs
  pub burn_coins-supply :
      (cs : List Coin) (b b' : Bank) (d : String)
      → burn_coins cs b ≡ some b'
      → supply_of b' d ≡ supply_of b d -ℤ amount_of d cs
