-- ===== src/Farm/Allocation.antt =====
-- The allocation of minted tokens to the pools of the whitelist: x/farm/abci.go, the values of pools
-- (x/farm/keeper/farm_pool.go), the whitelist (keeper/whitelist.go) and its proposals
-- (keeper/proposal.go, proposal_handler.go).
pub mod Laws
pub mod Backed
pub mod Block
use Prim.Native.String.{String}
use text.Mathlib.Text.{◌==◌ as string_eq}
use okexchain.Base.{
  update, ◌+ℤ◌, ◌-ℤ◌, ℤ, pos, leb_ℤ, eqb_ℤ, Bool, true, false, not, ◌||◌, List, [], ◌∷◌, ◌++◌,
  Option, none, some, if◌then◌else◌, Result, ok, err, ◌>>=◌, ◌>>◌, fail_if, or_fail,
}
use okexchain.Sdk.{SdkDec, DecMath, Coin, coin}
use okexchain.Sdk.Sets.{CoinSets, ModuleBank}
use okexchain.Swap.{SwapTokenPair, get_swap_token_pair_name}
use okexchain.Swap.Redeem.{SwapView, is_pool_token, split_pool_token, get_redeemable_assets}
use okexchain.Farm.Types.{
  FarmError, panic, no_farm_pool_found, swap_token_pair_not_exist, token_not_exist,
  pool_name_not_existed_in_white_list, mint_farming_account, yield_farming_account, FarmPool,
  PoolCurrentRewards, State,
}
use okexchain.Farm.Handler.{is_some}
use okexchain.Farm.Rewards.{set_farm_pool}

abbrev is_zero_dec : SdkDec → Bool
is_zero_dec a = eqb_ℤ a (pos 0)

abbrev is_not_positive : SdkDec → Bool
is_not_positive a = leb_ℤ a (pos 0)

-- ManageWhiteListProposal
pub record ManageWhiteListProposal : Type 0 where
  pub pool_name : String
  pub is_added : Bool

module _ {m : DecMath} (s : CoinSets m) (k : ModuleBank s) (v : SwapView) where
  open s use {Coins, of_amount, add2}

  -- What one unit of a pair is worth: the amount in the tokens of the other side.
  abbrev pub value_in_pair : SdkDec → String → SwapTokenPair → SdkDec
  value_in_pair amount quote_symbol pair =
      let base = pair.base_pooled_coin.amount in
      let quote = pair.quote_pooled_coin.amount in
      if is_zero_dec base || is_zero_dec quote
      then pos 0
      else if string_eq pair.quote_pooled_coin.denom quote_symbol
      then m.quo_truncate (m.mul_truncate amount quote) base
      else m.quo_truncate (m.mul_truncate amount base) quote

  -- calculateBaseValueInQuote
  unfoldable pub calculate_base_value_in_quote : Coin → String → SdkDec
  calculate_base_value_in_quote base quote_symbol =
      if string_eq base.denom quote_symbol
      then base.amount
      else elim (v.get_swap_token_pair (get_swap_token_pair_name base.denom quote_symbol)) [
        | none ↦ pos 0
        | some pair ↦ value_in_pair base.amount quote_symbol pair
      ]

  -- calculateLockedLPTValue
  unfoldable pub calculate_locked_lpt_value : FarmPool s → String → Result FarmError SdkDec
  calculate_locked_lpt_value pool quote_symbol = do
    (token0, token1) ← or_fail (split_pool_token pool.min_lock_amount.denom) panic
    elim (get_redeemable_assets m v token0 token1 pool.total_value_locked.amount) [
      | err e ↦ ok (pos 0)
      | ok (amount0, amount1) ↦ ok (
          calculate_base_value_in_quote amount0 quote_symbol
          +ℤ calculate_base_value_in_quote amount1 quote_symbol)
    ]

  -- GetPoolLockedValue
  unfoldable pub get_pool_locked_value : FarmPool s → State s k → Result FarmError SdkDec
  get_pool_locked_value pool st =
      if is_not_positive pool.total_value_locked.amount
      then ok (pos 0)
      else if is_pool_token pool.min_lock_amount.denom
      then calculate_locked_lpt_value pool st.params.quote_symbol
      else ok (calculate_base_value_in_quote pool.total_value_locked st.params.quote_symbol)

  -- The loop of calculateAllocateInfo over the names that the iterator of the whitelist gives: the
  -- values, the pools in their order, and the total.
  unfoldable pub calculate_allocate_info :
      List String
      → State s k
      → Result FarmError ((String → Option SdkDec) × List (FarmPool s) × SdkDec)
  calculate_allocate_info [] st = ok (λ name. none, [], pos 0)
  calculate_allocate_info (pool_name ∷ names) st = do
    pool ← or_fail (st.pools pool_name) panic
    value ← get_pool_locked_value pool st
    (values, pools, total) ← calculate_allocate_info names st
    if is_not_positive value
        then ok (values, pools, total)
        else ok (update values pool_name (some value), pool ∷ pools, value +ℤ total)

  -- What a pool is given: the last one takes what remains.
  unfoldable pub allocated_amount :
      (String → Option SdkDec)
      → SdkDec
      → SdkDec
      → FarmPool s
      → List (FarmPool s)
      → SdkDec
      → Result FarmError SdkDec
  allocated_amount values yielded total pool [] remaining = ok remaining
  allocated_amount values yielded total pool (next ∷ pools) remaining = do
    value ← or_fail (values pool.name) panic
    ok (m.quo_truncate (m.mul_truncate value yielded) total)

  -- One pool of the loop in BeginBlocker
  unfoldable pub allocate_to :
      String → FarmPool s → SdkDec → State s k → Result FarmError (State s k)
  allocate_to bond_denom pool amount st = do
    current ← or_fail (st.current pool.name) panic
    let coins = of_amount bond_denom amount
    let current' : PoolCurrentRewards s = record current { rewards = add2 current.rewards coins }
    let pool' : FarmPool s = record pool {
      total_accumulated_rewards = add2 pool.total_accumulated_rewards coins;
    }
    ok (
        set_farm_pool s k pool'
          (record st { current = update st.current pool.name (some current') }))

  -- The loop in BeginBlocker, with what remains after it.
  unfoldable pub allocate :
      (String → Option SdkDec)
      → SdkDec
      → SdkDec
      → String
      → List (FarmPool s)
      → SdkDec
      → State s k
      → Result FarmError (SdkDec × State s k)
  allocate values yielded total bond_denom [] remaining st = ok (remaining, st)
  allocate values yielded total bond_denom (pool ∷ pools) remaining st = do
    amount ← allocated_amount values yielded total pool pools remaining
    st1 ← allocate_to bond_denom pool amount st
    allocate values yielded total bond_denom pools (remaining -ℤ amount) st1

  -- Steps 2 and 3 of BeginBlocker
  unfoldable pub distribute :
      (String → Option SdkDec)
      → List (FarmPool s)
      → SdkDec
      → String
      → SdkDec
      → State s k
      → Result FarmError (State s k)
  distribute values pools total bond_denom yielded st = do
    (remaining, st1) ← allocate values yielded total bond_denom pools yielded st
    fail_if (not (is_zero_dec remaining)) panic
    bank ←
        or_fail
          (k.module_to_module mint_farming_account yield_farming_account
            (of_amount bond_denom yielded) st1.bank)
          panic
    ok (record st1 { bank = bank })

  -- Steps 1 to 3 of BeginBlocker
  unfoldable pub allocate_yielded :
      String → List String → SdkDec → State s k → Result FarmError (State s k)
  allocate_yielded bond_denom names yielded st = do
    (values, pools, total) ← calculate_allocate_info names st
    if is_not_positive total then ok st else distribute values pools total bond_denom yielded st

  abbrev pub burn_minted : String → SdkDec → State s k → Result FarmError (State s k)
  burn_minted bond_denom yielded st = do
    bank ← or_fail (k.burn mint_farming_account (of_amount bond_denom yielded) st.bank) panic
    ok (record st { bank = bank })

  -- BeginBlocker
  unfoldable pub begin_blocker : String → List String → State s k → Result FarmError (State s k)
  begin_blocker bond_denom names st =
      let yielded = k.balance st.bank mint_farming_account bond_denom in
      if is_not_positive yielded
      then ok st
      else if not st.params.yield_native_token
      then burn_minted bond_denom yielded st
      else allocate_yielded bond_denom names yielded st

  -- isSwapTokenPairExisted
  unfoldable pub is_swap_token_pair_existed : String → String → Bool
  is_swap_token_pair_existed base quote =
      is_some (v.get_swap_token_pair (get_swap_token_pair_name base quote))

  -- satisfyWhiteListAdmittance
  unfoldable pub satisfy_white_list_admittance :
      FarmPool s → State s k → Result FarmError (Unit {0})
  satisfy_white_list_admittance pool st =
      let quote = st.params.quote_symbol in
      let denom = pool.min_lock_amount.denom in
      if string_eq denom quote
      then ok tt
      else if not (is_pool_token denom)
      then fail_if (not (is_swap_token_pair_existed denom quote)) swap_token_pair_not_exist
      else (do
        (token0, token1) ← or_fail (split_pool_token denom) panic
        if string_eq token0 quote || string_eq token1 quote
            then fail_if (not (is_swap_token_pair_existed token0 token1)) token_not_exist
            else (do
              fail_if (not (is_swap_token_pair_existed token0 quote)) swap_token_pair_not_exist
              fail_if (not (is_swap_token_pair_existed token1 quote)) swap_token_pair_not_exist))

  -- CheckMsgManageWhiteListProposal
  unfoldable pub check_msg_manage_white_list_proposal :
      ManageWhiteListProposal → State s k → Result FarmError (Unit {0})
  check_msg_manage_white_list_proposal proposal st =
      if proposal.is_added
      then (do
        pool ← or_fail (st.pools proposal.pool_name) no_farm_pool_found
        satisfy_white_list_admittance pool st)
      else fail_if (not (st.whitelist proposal.pool_name)) pool_name_not_existed_in_white_list

  -- handleManageWhiteListProposal
  unfoldable pub handle_manage_white_list_proposal :
      ManageWhiteListProposal → State s k → Result FarmError (State s k)
  handle_manage_white_list_proposal proposal st = do
    check_msg_manage_white_list_proposal proposal st
    ok (record st { whitelist = update st.whitelist proposal.pool_name proposal.is_added })
