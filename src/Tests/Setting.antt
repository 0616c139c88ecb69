-- ===== src/Tests/Setting.antt =====
-- The parameters of the model at concrete functions: numbers with eight decimal places, coins, and a
-- bank that keeps its balances as functions.
use Prim.Native.String.{String}
use text.Mathlib.Text.{◌==◌ as string_eq}
use text.Mathlib.TextEquality.{eq_iff}
use okexchain.Base.{
  ℕ, ◌+◌, ◌-◌, ◌*◌, ◌/◌, ◌^◌, ◌≡◌, ◌≢◌, refl, sym, ◌∙◌, -ℤ_zero, ap, inl, inr, arith, ℤ, pos,
  negsuc, suc, ◌+ℤ◌, ◌-ℤ◌, leb_ℤ, ltb_ℤ, ◌≤ℤ◌, ◌<ℤ◌, Bool, true, false, ◌&&◌, Bool-cases, List, [],
  ◌∷◌, Option, none, some, if◌then◌else◌, string_eq_refl,
}
use okexchain.Sdk.{SdkDec, DecMath, Coin, coin, CoinMath, SupplyKeeper, amount_of}

-- Apply a function to the magnitudes, and give back the sign.
unfoldable pub signed : (ℕ → ℕ → ℕ) → ℤ → ℤ → ℤ
signed f (pos a) (pos b) = pos (f a b)
signed f (pos a) (negsuc b) = pos 0 -ℤ pos (f a (suc b))
signed f (negsuc a) (pos b) = pos 0 -ℤ pos (f (suc a) b)
signed f (negsuc a) (negsuc b) = pos (f (suc a) (suc b))

abbrev places : ℤ → ℕ
places (pos n) = 10 ^ (8 - n)
places (negsuc n) = 10 ^ 8

unfoldable pub dec_math : DecMath
unfolding signed
dec_math = record {
  unit = 100000000;
  unit_pos = omega arith;
  mul = signed (λ a b. (2 * (a * b) + 100000000) / 200000000);
  quo = signed (λ a b. (2 * (a * 100000000) + b) / (2 * b));
  mul_truncate = signed (λ a b. a * b / 100000000);
  quo_truncate = signed (λ a b. a * 100000000 / b);
  round_decimal = λ x n. signed (λ a b. a / b * b) x (pos (places n));
  mul_truncate-pos = λ a b. refl;
  quo_truncate-pos = λ a b h. refl;
}

abbrev same_denom : Coin → Coin → Bool
same_denom x y = string_eq x.denom y.denom

unfoldable pub add_coins : Coin → Coin → Option Coin
add_coins x y = if same_denom x y then some (coin x.denom (x.amount +ℤ y.amount)) else none

unfoldable pub sub_coins : Coin → Coin → Option Coin
sub_coins x y =
    if same_denom x y && leb_ℤ y.amount x.amount
    then some (coin x.denom (x.amount -ℤ y.amount))
    else none

pub differ : (x y : Coin) → x.denom ≢ y.denom → same_denom x y ≡ false
differ x y ne = elim (Bool-cases (same_denom x y)) [
  | inl t ↦ absurd (ne ((eq_iff x.denom y.denom).0 t))
  | inr t ↦ t
]

pub sub_coins-same :
    (d : String) (a b : ℤ) → b ≤ℤ a → sub_coins (coin d a) (coin d b) ≡ some (coin d (a -ℤ b))
unfolding sub_coins
sub_coins-same d a b h = rw (string_eq_refl d) (ground arith)

pub sub_coins-short : (d : String) (a b : ℤ) → a <ℤ b → sub_coins (coin d a) (coin d b) ≡ none
unfolding sub_coins
sub_coins-short d a b h = rw (string_eq_refl d) (ground arith)

unfoldable pub is_lt_coins : Coin → Coin → Option Bool
is_lt_coins x y = if same_denom x y then some (ltb_ℤ x.amount y.amount) else none

unfoldable pub coin_math : CoinMath
unfolding add_coins sub_coins is_lt_coins
coin_math = record {
  coin_add = add_coins;
  coin_sub = sub_coins;
  coin_is_lt = is_lt_coins;
  coin_is_lt-same = λ d a b. rw (string_eq_refl d) refl;
  coin_is_lt-ne = λ x y ne. rw (differ x y ne) refl;
  sort = λ cs. cs;
  coin_add-same = λ d a b. rw (string_eq_refl d) refl;
  coin_add-ne = λ x y ne. rw (differ x y ne) refl;
  coin_sub-same = sub_coins-same;
  coin_sub-short = sub_coins-short;
  coin_sub-ne = λ x y ne. rw (differ x y ne) refl;
  amount_of-sort = λ d cs. refl;
}

pub record Bank : Type 0 where
  pub module_balance : String → SdkDec
  pub user_balance : String → String → SdkDec
  pub supply_of : String → SdkDec

unfoldable pub covers : (String → SdkDec) → List Coin → Bool
covers balance [] = true
covers balance (x ∷ xs) = leb_ℤ x.amount (balance x.denom) && covers balance xs

abbrev plus : (String → SdkDec) → List Coin → String → SdkDec
plus balance coins d = balance d +ℤ amount_of d coins

abbrev minus : (String → SdkDec) → List Coin → String → SdkDec
minus balance coins d = balance d -ℤ amount_of d coins

abbrev of_user : String → (String → SdkDec) → (String → String → SdkDec) → String → String → SdkDec
of_user u balance others v = if string_eq u v then balance else others v

unfoldable pub guarded : Bool → Bank → Option Bank
guarded test b = if test then some b else none

pub guarded-some : (test : Bool) (b b' : Bank) → guarded test b ≡ some b' → b' ≡ b
unfolding guarded
guarded-some test b b' h = elim (Bool-cases test) [ inl t ↦ cc | inr t ↦ cc ]

unfoldable pub to_module : String → List Coin → Bank → Bank
to_module u coins b = record b {
  module_balance = plus b.module_balance coins;
  user_balance = of_user u (minus (b.user_balance u) coins) b.user_balance;
}

unfoldable pub from_module : String → List Coin → Bank → Bank
from_module u coins b = record b {
  module_balance = minus b.module_balance coins;
  user_balance = of_user u (plus (b.user_balance u) coins) b.user_balance;
}

unfoldable pub minted : List Coin → Bank → Bank
minted coins b = record b {
  module_balance = plus b.module_balance coins;
  supply_of = plus b.supply_of coins;
}

unfoldable pub burnt : List Coin → Bank → Bank
burnt coins b = record b {
  module_balance = minus b.module_balance coins;
  supply_of = minus b.supply_of coins;
}

-- A payment to an address that may be the module's own
abbrev pub paid_to : String → List Coin → Bank → Bank
paid_to u coins b = if string_eq u "ammswap" then b else from_module u coins b

pub paid_to-balance :
    (u : String) (coins : List Coin) (b : Bank) (d : String)
    → (paid_to u coins b).module_balance d
      ≡ b.module_balance d -ℤ (if string_eq u "ammswap" then pos 0 else amount_of d coins)
unfolding from_module
paid_to-balance u coins b d = elim (Bool-cases (string_eq u "ammswap")) [
  | inl own ↦ rw own (sym (-ℤ_zero (b.module_balance d)))
  | inr other ↦ rw other refl
]

unfoldable pub supply_keeper : SupplyKeeper
unfolding covers guarded to_module from_module minted burnt
supply_keeper = record {
  Bank = Bank;
  module_balance = λ b. b.module_balance;
  user_balance = λ b. b.user_balance;
  supply_of = λ b. b.supply_of;
  has_sufficient_coins = λ b u coins. covers (b.user_balance u) coins;
  send_to_module = λ u coins b. guarded (covers (b.user_balance u) coins) (to_module u coins b);
  send_from_module = λ u coins b. guarded (covers b.module_balance coins) (from_module u coins b);
  is_own = λ u. string_eq u "ammswap";
  send_to_recipient = λ u coins b. guarded (covers b.module_balance coins) (paid_to u coins b);
  send_to_recipient-module = λ u coins b b' d h.
      ap (λ t. t.module_balance d) (guarded-some _ _ b' h) ∙ paid_to-balance u coins b d;
  mint_coins = λ coins b. some (minted coins b);
  burn_coins = λ coins b. guarded (covers b.module_balance coins) (burnt coins b);
  send_to_module-module = λ u coins b b' d h. ap (λ t. t.module_balance d) (guarded-some _ _ b' h);
  send_from_module-module =
      λ u coins b b' d h. ap (λ t. t.module_balance d) (guarded-some _ _ b' h);
  send_to_module-supply = λ u coins b b' d h. ap (λ t. t.supply_of d) (guarded-some _ _ b' h);
  send_from_module-supply = λ u coins b b' d h. ap (λ t. t.supply_of d) (guarded-some _ _ b' h);
  mint_coins-module = λ coins b b' d h. ap (λ t. t.module_balance d) (guarded-some true _ b' h);
  mint_coins-supply = λ coins b b' d h. ap (λ t. t.supply_of d) (guarded-some true _ b' h);
  burn_coins-module = λ coins b b' d h. ap (λ t. t.module_balance d) (guarded-some _ _ b' h);
  burn_coins-supply = λ coins b b' d h. ap (λ t. t.supply_of d) (guarded-some _ _ b' h);
}
