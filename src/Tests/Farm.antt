-- ===== src/Tests/Farm.antt =====
-- A pool of the farm module that is created, locked into and given its part of the minted tokens.
use Prim.Native.String.{String}
use text.Mathlib.Text.{◌==◌ as string_eq}
use okexchain.Base.{
  distinct, occurs, sum_over, ◌≡◌, refl, pos, ◌+ℤ◌, ◌-ℤ◌, leb_ℤ, true, false, List, [], ◌∷◌, Option,
  none, some, if◌then◌else◌, Result, ok, err, ap,
}
use okexchain.Sdk.{SdkDec, coin}
use okexchain.Sdk.Sets.{CoinSets, ModuleBank, at_account}
use okexchain.Swap.Redeem.{SwapView}
use okexchain.Farm.Types.{
  FarmError, FarmPool, MsgClaim, MsgLock, MsgCreatePool, State, yield_farming_account, new_dec,
  next_period, previous_period,
}
use okexchain.Farm.Handler.{
  handle_msg_claim, take_rewards, handle_msg_create_pool, handle_msg_lock, settle_lock, take_in,
}
use okexchain.Farm.Rewards.{
  withdraw_rewards, calculate_rewards, calculate_lock_rewards_between, pay_rewards,
  increment_pool_period, decrement_reference_count, increment_reference_count, update_lock_info,
}
use okexchain.Farm.Yield.{calculate_amount_yielded_between, yield_tokens, yield_token}
use okexchain.Farm.Allocation.{
  begin_blocker, allocate_yielded, distribute, calculate_allocate_info, get_pool_locked_value,
  calculate_base_value_in_quote, allocate, allocated_amount, allocate_to,
}
use okexchain.Farm.Allocation.Backed.{all_occur}
use okexchain.Farm.Books.{Backed, fits, owed, kept}
use okexchain.Farm.Earnings.{Earnings, get_earnings, handle_msg_claim-get_earnings}
use okexchain.Farm.Allocation.Block.{allocate-leaves}
use okexchain.Farm.Chain.{Reaches, start, step, create, lock, begin_block, reaches-Backed}
use okexchain.Tests.Setting.{dec_math, coin_math, signed, add_coins, sub_coins}

abbrev pub Amounts : Type 0
Amounts = String → SdkDec

pub some_eq : {x y : Amounts} → ◌≡◌ {A = Option Amounts} (some x) (some y) → y ≡ x
some_eq h = cc

unfoldable pub coin_sets : CoinSets dec_math
coin_sets = record {
  Coins = Amounts;
  amount = λ d x. x d;
  empty = λ d. pos 0;
  of_amount = λ e a d. if string_eq e d then a else pos 0;
  add2 = λ x y d. x d +ℤ y d;
  sub = λ x y. some (λ d. x d -ℤ y d);
  mul_dec_truncate = λ x a d. dec_math.mul_truncate (x d) a;
  quo_dec_truncate = λ x a d. dec_math.quo_truncate (x d) a;
  is_zero = λ x. false;
  is_all_lt = λ x y. false;
  is_empty = λ x. false;
  amount-empty = λ d. refl;
  amount-of_amount = λ d e a. refl;
  amount-add2 = λ d x y. refl;
  amount-sub = λ d x y z h. ap (λ o. o d) (some_eq h);
  amount-mul_dec_truncate = λ d x a. refl;
  amount-quo_dec_truncate = λ d x a. refl;
  amount-is_zero = λ d x h. cc;
  amount-is_empty = λ d x h. cc;
}

-- The balances of the module accounts.
abbrev pub Accounts : Type 0
Accounts = String → String → SdkDec

abbrev pub added : String → Amounts → Accounts → Accounts
added a x bank b d = bank b d +ℤ at_account a b (x d)

abbrev pub taken : String → Amounts → Accounts → Accounts
taken a x bank b d = bank b d -ℤ at_account a b (x d)

pub some_accounts : {x y : Accounts} → ◌≡◌ {A = Option Accounts} (some x) (some y) → y ≡ x
some_accounts h = cc

unfoldable pub module_bank : ModuleBank coin_sets
unfolding coin_sets
module_bank = record {
  Bank = Accounts;
  balance = λ bank b d. bank b d;
  account_to_module = λ u a x bank. some (added a x bank);
  module_to_account = λ a u x bank. some (taken a x bank);
  module_to_module = λ a a' x bank. some (added a' x (taken a x bank));
  burn = λ a x bank. some (taken a x bank);
  account_to_module-balance = λ u a b d x bank bank' h. ap (λ f. f b d) (some_accounts h);
  module_to_account-balance = λ u a b d x bank bank' h. ap (λ f. f b d) (some_accounts h);
  module_to_module-balance = λ a a' b d x bank bank' h. ap (λ f. f b d) (some_accounts h);
  burn-balance = λ a b d x bank bank' h. ap (λ f. f b d) (some_accounts h);
}

unfoldable no_pairs : SwapView
no_pairs = record {
  get_swap_token_pair = λ name. none;
  get_pool_token_amount = λ name. pos 0;
  valid_denom = λ name. true;
}

abbrev pub Store : Type 0
Store = State coin_sets module_bank

abbrev pub minted : Accounts
minted b d = at_account "mint_farming_account" b (if string_eq d "okt" then pos 700 else pos 0)

unfoldable pub genesis : Store
unfolding coin_sets module_bank
genesis = record {
  pools = λ name. none;
  locks = λ addr name. none;
  addresses = λ name addr. false;
  whitelist = λ name. true;
  current = λ name. none;
  historical = λ name period. none;
  bank = minted;
  height = pos 1;
  params = record {
    quote_symbol = "usdk";
    create_pool_fee = coin "okt" (pos 0);
    create_pool_deposit = coin "okt" (pos 1000);
    yield_native_token = true;
  };
  token_exist = λ denom. true;
  fee_collector = "fee_collector";
}

abbrev pub or_else : {A : Type 0} → A → Result FarmError A → A
or_else a (err e) = a
or_else a (ok b) = b

abbrev creation : MsgCreatePool
creation = record {
  owner = "ann";
  pool_name = "pool";
  min_lock_amount = coin "usdk" (pos 10);
  yielded_symbol = "okb";
}

abbrev locking : MsgLock
locking = record { pool_name = "pool"; address = "bob"; amount = coin "usdk" (pos 50) }

abbrev created : Store
created = or_else genesis (handle_msg_create_pool coin_sets module_bank coin_math creation genesis)

abbrev locked : Store
locked = or_else created (handle_msg_lock coin_sets module_bank coin_math locking created)

abbrev next_block : Store
next_block = or_else locked (
    begin_blocker coin_sets module_bank no_pairs "okt" ("pool" ∷ [])
      (record locked { height = pos 2 }))

created_ok : handle_msg_create_pool coin_sets module_bank coin_math creation genesis ≡ ok created
unfolding genesis coin_sets module_bank coin_math handle_msg_create_pool
created_ok = refl

locked_ok : handle_msg_lock coin_sets module_bank coin_math locking created ≡ ok locked
unfolding genesis coin_sets module_bank coin_math dec_math signed add_coins sub_coins
    handle_msg_create_pool handle_msg_lock settle_lock take_in increment_pool_period
    decrement_reference_count increment_reference_count update_lock_info
    calculate_amount_yielded_between yield_tokens yield_token new_dec next_period previous_period
    ◌+ℤ◌ ◌-ℤ◌
locked_ok = refl

block_ok :
    begin_blocker coin_sets module_bank no_pairs "okt"
      ("pool" ∷ [])
      (record locked { height = pos 2 })
    ≡ ok next_block
unfolding genesis coin_sets module_bank coin_math dec_math signed add_coins sub_coins
    handle_msg_create_pool handle_msg_lock settle_lock take_in increment_pool_period
    decrement_reference_count increment_reference_count update_lock_info
    calculate_amount_yielded_between yield_tokens yield_token new_dec next_period previous_period
    ◌+ℤ◌ ◌-ℤ◌ no_pairs begin_blocker allocate_yielded distribute calculate_allocate_info
    get_pool_locked_value calculate_base_value_in_quote allocate allocated_amount allocate_to
block_ok = refl

run : Reaches coin_sets module_bank coin_math no_pairs "okt" ("pool" ∷ []) genesis next_block
unfolding occurs distinct all_occur genesis
run =
    step
      (step (step start (create creation refl refl refl refl created_ok))
        (lock locking refl locked_ok))
      (begin_block (pos 2) ("pool" ∷ []) refl refl block_ok)

genesis-Backed : Backed coin_sets module_bank "okt" ("pool" ∷ []) (pos 0) genesis
unfolding genesis fits sum_over owed kept coin_sets module_bank ◌+ℤ◌
genesis-Backed = (λ name. refl, refl, refl)

reaches-Backed_example : Backed coin_sets module_bank "okt" ("pool" ∷ []) (pos 0) next_block
unfolding distinct occurs
reaches-Backed_example =
    reaches-Backed coin_sets module_bank coin_math no_pairs "okt" "okt" ("pool" ∷ []) genesis
      next_block refl genesis-Backed run

abbrev claiming : MsgClaim
claiming = record { pool_name = "pool"; address = "bob" }

abbrev at_three : Store
at_three = record next_block { height = pos 3 }

abbrev claimed : Store
claimed = or_else at_three (handle_msg_claim coin_sets module_bank coin_math claiming at_three)

claimed_ok : handle_msg_claim coin_sets module_bank coin_math claiming at_three ≡ ok claimed
unfolding genesis coin_sets module_bank coin_math dec_math signed add_coins sub_coins
    handle_msg_create_pool handle_msg_lock settle_lock take_in increment_pool_period
    decrement_reference_count increment_reference_count update_lock_info
    calculate_amount_yielded_between yield_tokens yield_token new_dec next_period previous_period
    ◌+ℤ◌ ◌-ℤ◌ no_pairs begin_blocker allocate_yielded distribute calculate_allocate_info
    get_pool_locked_value calculate_base_value_in_quote allocate allocated_amount allocate_to
    handle_msg_claim withdraw_rewards calculate_rewards calculate_lock_rewards_between pay_rewards
    take_rewards
claimed_ok = refl

own_name : (pool : FarmPool coin_sets) → at_three.pools "pool" ≡ some pool → pool.name ≡ "pool"
unfolding genesis coin_sets module_bank coin_math dec_math signed add_coins sub_coins
    handle_msg_create_pool handle_msg_lock settle_lock take_in increment_pool_period
    decrement_reference_count increment_reference_count update_lock_info
    calculate_amount_yielded_between yield_tokens yield_token new_dec next_period previous_period
    ◌+ℤ◌ ◌-ℤ◌ no_pairs begin_blocker allocate_yielded distribute calculate_allocate_info
    get_pool_locked_value calculate_base_value_in_quote allocate allocated_amount allocate_to
own_name pool h = cc

handle_msg_claim-get_earnings_example :
    (earnings : Earnings coin_sets) × (get_earnings coin_sets module_bank "pool" "bob" at_three
      ≡ ok earnings)
    × ((d : String)
        → module_bank.balance claimed.bank yield_farming_account d
          ≡ module_bank.balance at_three.bank yield_farming_account d
            -ℤ coin_sets.amount d earnings.amount_yielded)
handle_msg_claim-get_earnings_example =
    handle_msg_claim-get_earnings coin_sets module_bank coin_math claiming at_three claimed own_name
      claimed_ok

abbrev Info : Type 0
Info = (String → Option SdkDec) × List (FarmPool coin_sets) × SdkDec

abbrev info : Info
info =
    or_else (λ name. none, [], pos 0)
      (calculate_allocate_info coin_sets module_bank no_pairs ("pool" ∷ []) locked)

abbrev shared : SdkDec × Store
shared =
    or_else (pos 0, locked)
      (allocate coin_sets module_bank no_pairs info.0 (pos 700) info.2 "okt" info.1 (pos 700)
        locked)

info_ok :
    calculate_allocate_info coin_sets module_bank no_pairs ("pool" ∷ []) locked
    ≡ ok (info.0, info.1, info.2)
unfolding genesis coin_sets module_bank coin_math dec_math signed add_coins sub_coins
    handle_msg_create_pool handle_msg_lock settle_lock take_in increment_pool_period
    decrement_reference_count increment_reference_count update_lock_info
    calculate_amount_yielded_between yield_tokens yield_token new_dec next_period previous_period
    ◌+ℤ◌ ◌-ℤ◌ no_pairs begin_blocker allocate_yielded distribute calculate_allocate_info
    get_pool_locked_value calculate_base_value_in_quote allocate allocated_amount allocate_to
info_ok = refl

info_positive : leb_ℤ info.2 (pos 0) ≡ false
unfolding genesis coin_sets module_bank coin_math dec_math signed add_coins sub_coins
    handle_msg_create_pool handle_msg_lock settle_lock take_in increment_pool_period
    decrement_reference_count increment_reference_count update_lock_info
    calculate_amount_yielded_between yield_tokens yield_token new_dec next_period previous_period
    ◌+ℤ◌ ◌-ℤ◌ no_pairs begin_blocker allocate_yielded distribute calculate_allocate_info
    get_pool_locked_value calculate_base_value_in_quote allocate allocated_amount allocate_to
info_positive = refl

shared_ok :
    allocate coin_sets module_bank no_pairs info.0 (pos 700) info.2 "okt" info.1 (pos 700) locked
    ≡ ok (shared.0, shared.1)
unfolding genesis coin_sets module_bank coin_math dec_math signed add_coins sub_coins
    handle_msg_create_pool handle_msg_lock settle_lock take_in increment_pool_period
    decrement_reference_count increment_reference_count update_lock_info
    calculate_amount_yielded_between yield_tokens yield_token new_dec next_period previous_period
    ◌+ℤ◌ ◌-ℤ◌ no_pairs begin_blocker allocate_yielded distribute calculate_allocate_info
    get_pool_locked_value calculate_base_value_in_quote allocate allocated_amount allocate_to
shared_ok = refl

locked-Backed : Backed coin_sets module_bank "okt" ("pool" ∷ []) (pos 0) locked
unfolding occurs distinct genesis
locked-Backed =
    reaches-Backed coin_sets module_bank coin_math no_pairs "okt" "okt" ("pool" ∷ []) genesis locked
      refl genesis-Backed
      (step (step start (create creation refl refl refl refl created_ok))
        (lock locking refl locked_ok))

allocate-leaves_example : shared.0 ≡ pos 0
allocate-leaves_example =
    allocate-leaves coin_sets module_bank no_pairs "okt" ("pool" ∷ []) info.0 info.1 info.2 "okt"
      (pos 700) shared.0 locked shared.1 info_ok info_positive shared_ok
