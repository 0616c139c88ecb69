-- ===== src/Dex/Keeper.antt =====
-- x/dex/keeper/keeper.go: the stores of pairs, withdrawals and changes of ownership, and Deposit,
-- Withdraw and CompleteWithdraw. A write that another module observes changes nothing here.
use Prim.Native.String.{String}
use text.Mathlib.Text.{◌==◌ as string_eq}
use okexchain.Base.{
  ℕ, ◌+◌, ◌%◌, ◌^◌, ◌+ℤ◌, ltb, ◌==◌, eqb_ℤ, ltb_ℤ, leb_ℤ, Bool, true, false, not, ◌&&◌, ◌||◌, List,
  [], ◌∷◌, Option, none, some, if◌then◌else◌, Result, ok, ◌>>=◌, ◌>>◌, fail_if, or_fail, update,
  string_lt, get, put, delete,
}
use okexchain.Sdk.{DecMath, Coin, CoinMath}
use okexchain.Sdk.Sets.{CoinSets, ModuleBank}
use okexchain.Dex.Types.{
  Time, TokenPair, pair_name, WithdrawInfo, DexParams, Context, DexState, dex_account, DexError,
  invalid_token_pair, must_token_pair_owner, deposit_only_support_denom, insufficient_deposit_coins,
  withdraw_only_support_denom, insufficient_withdraw_coins, invalid_address, panicked,
}

abbrev pub same_time_key : Time → String → Time → String → Bool
same_time_key t a u b = eqb_ℤ t u && string_eq a b

-- The keys of withdrawals by time and address, in the order of the store
abbrev pub time_key_lt : Time → String → Time → String → Bool
time_key_lt t a u b = ltb_ℤ t u || eqb_ℤ t u && string_lt a b

-- SetWithdrawCompleteTimeAddress
unfoldable pub set_withdraw_time : Time → String → List (Time × String) → List (Time × String)
set_withdraw_time t a [] = (t, a) ∷ []
set_withdraw_time t a ((u, b) ∷ keys) =
    if same_time_key t a u b
    then (u, b) ∷ keys
    else if time_key_lt t a u b
    then (t, a) ∷ (u, b) ∷ keys
    else (u, b) ∷ set_withdraw_time t a keys

-- DeleteWithdrawCompleteTimeAddress
unfoldable pub delete_withdraw_time : Time → String → List (Time × String) → List (Time × String)
delete_withdraw_time t a [] = []
delete_withdraw_time t a ((u, b) ∷ keys) =
    let rest = delete_withdraw_time t a keys in
    if same_time_key t a u b then rest else (u, b) ∷ rest

-- withdrawTimeKeyIterator: the keys up to a time
unfoldable pub due_keys : Time → List (Time × String) → List (Time × String)
due_keys now [] = []
due_keys now ((u, b) ∷ keys) = if leb_ℤ u now then (u, b) ∷ due_keys now keys else due_keys now keys

-- The keys without the one that the withdrawal of an account has had.
abbrev pub without_withdraw_time :
    String → Option WithdrawInfo → List (Time × String) → List (Time × String)
without_withdraw_time to none keys = keys
without_withdraw_time to (some info) keys = delete_withdraw_time info.complete_time to keys

module _ {m : DecMath} (s : CoinSets m) (k : ModuleBank s) (c : CoinMath) (params : DexParams) where
  open c use {coin_add, coin_sub, coin_is_lt}

  abbrev pub to_coins : Coin → s.Coins
  to_coins x = s.of_amount x.denom x.amount

  -- GetTokenPair
  abbrev pub get_token_pair : String → DexState s k → Option TokenPair
  get_token_pair product st = get product st.pairs

  -- UpdateTokenPair
  abbrev pub update_token_pair : String → TokenPair → DexState s k → DexState s k
  update_token_pair product pair st = record st { pairs = put product pair st.pairs }

  abbrev pub update_user_pair :
      String → String → Bool → (String → String → Bool) → String → String → Bool
  update_user_pair owner product kept user_pairs =
      update user_pairs owner (update (user_pairs owner) product kept)

  -- The number that a new pair is given, in 64 bits; a pair with a number keeps it.
  unfoldable pub token_pair_id : ℕ → ℕ → ℕ
  token_pair_id id max_id = if id == 0 then (max_id + 1) % 2 ^ 64 else id

  -- SaveTokenPair
  unfoldable pub save_token_pair : TokenPair → DexState s k → DexState s k
  save_token_pair pair st =
      let id = token_pair_id pair.id st.max_token_pair_id in
      record st {
        max_token_pair_id = if ltb st.max_token_pair_id id then id else st.max_token_pair_id;
        pairs = put (pair_name pair) (record pair { id = id }) st.pairs;
        user_pairs = update_user_pair pair.owner (pair_name pair) true st.user_pairs;
      }

  -- DeleteTokenPairByName
  unfoldable pub delete_token_pair_by_name : String → String → DexState s k → DexState s k
  delete_token_pair_by_name owner product st = record st {
    pairs = delete product st.pairs;
    user_pairs = update_user_pair owner product false st.user_pairs;
  }

  -- UpdateUserTokenPair
  unfoldable pub update_user_token_pair : String → String → String → DexState s k → DexState s k
  update_user_token_pair product owner to st = record st {
    user_pairs =
        update_user_pair to product true (update_user_pair owner product false st.user_pairs);
  }

  -- Deposit
  unfoldable pub deposit : String → String → Coin → DexState s k → Result DexError (DexState s k)
  deposit product from amount st = do
    pair ← or_fail (get_token_pair product st) invalid_token_pair
    fail_if (not (string_eq pair.owner from)) must_token_pair_owner
    fail_if (not (string_eq amount.denom params.bond_denom)) deposit_only_support_denom
    bank ←
        or_fail (k.account_to_module from dex_account (to_coins amount) st.bank)
          insufficient_deposit_coins
    deposits ← or_fail (coin_add pair.deposits amount) panicked
    ok (update_token_pair product (record pair { deposits = deposits }) (record st { bank = bank }))

  -- What an account is to be paid, and since when: what it was to be paid before is added to.
  abbrev pub joined_withdraw :
      String → Coin → Time → Option WithdrawInfo → Result DexError WithdrawInfo
  joined_withdraw to amount complete_time none =
      ok (record { owner = to; deposits = amount; complete_time = complete_time })
  joined_withdraw to amount complete_time (some info) = do
    deposits ← or_fail (coin_add info.deposits amount) panicked
    ok (record info { deposits = deposits; complete_time = complete_time })

  -- The part of Withdraw that keeps the withdrawal for later. SetWithdrawInfo goes by the owner.
  unfoldable pub add_withdraw :
      Context → String → Coin → DexState s k → Result DexError (DexState s k)
  add_withdraw ctx to amount st = do
    let complete_time : Time = ctx.time +ℤ params.withdraw_period
    info ← joined_withdraw to amount complete_time (get to st.withdraws)
    ok (record st {
      withdraws = put info.owner info st.withdraws;
      withdraw_times =
          set_withdraw_time complete_time to
            (without_withdraw_time to (get to st.withdraws) st.withdraw_times);
    })

  -- Withdraw
  unfoldable pub withdraw :
      Context → String → String → Coin → DexState s k → Result DexError (DexState s k)
  withdraw ctx product to amount st = do
    pair ← or_fail (get_token_pair product st) invalid_token_pair
    fail_if (not (string_eq pair.owner to)) must_token_pair_owner
    fail_if (not (string_eq amount.denom params.bond_denom)) withdraw_only_support_denom
    short ← or_fail (coin_is_lt pair.deposits amount) panicked
    fail_if short insufficient_withdraw_coins
    st1 ← add_withdraw ctx to amount st
    deposits ← or_fail (coin_sub pair.deposits amount) panicked
    ok (update_token_pair product (record pair { deposits = deposits }) st1)

  -- CompleteWithdraw
  unfoldable pub complete_withdraw : String → DexState s k → Result DexError (DexState s k)
  complete_withdraw addr st = do
    info ← or_fail (get addr st.withdraws) invalid_address
    bank ←
        or_fail (k.module_to_account dex_account info.owner (to_coins info.deposits) st.bank)
          insufficient_deposit_coins
    ok (record st { bank = bank; withdraws = delete addr st.withdraws })
