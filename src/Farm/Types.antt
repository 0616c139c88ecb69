-- ===== src/Farm/Types.antt =====
-- x/farm/types and the store of x/farm/keeper: pools, locks, periods of rewards, messages.
use Prim.Native.String.{String}
use okexchain.Base.{
  ℕ, ◌+◌, ◌-◌, ◌*◌, ◌%◌, ◌^◌, suc, ◌==◌, ℤ, pos, negsuc, ◌-ℤ◌, Bool, List, Option, if◌then◌else◌,
}
use okexchain.Sdk.{SdkDec, DecMath, Coin}
use okexchain.Sdk.Sets.{CoinSets, ModuleBank}

-- ModuleName, YieldFarmingAccount and MintFarmingAccount
abbrev pub farm_account : String
farm_account = "farm"

abbrev pub yield_farming_account : String
yield_farming_account = "yield_farming_account"

abbrev pub mint_farming_account : String
mint_farming_account = "mint_farming_account"

pub data FarmError : Type 0 where
  no_farm_pool_found invalid_denom lock_amount_below_minimum no_lock_info_found : FarmError
  insufficient_amount pool_already_exist token_not_exist insufficient_coins : FarmError
  invalid_pool_owner pool_not_finished invalid_start_height remaining_amount_not_zero : FarmError
  send_from_account_to_module_failed send_from_module_to_account_failed : FarmError
  send_coins_failed swap_token_pair_not_exist pool_name_not_existed_in_white_list : FarmError
  panic : FarmError

-- sdk.NewDec of a number of blocks
unfoldable pub new_dec : DecMath → ℤ → SdkDec
new_dec m (pos n) = pos (n * m.unit)
new_dec m (negsuc n) = pos 0 -ℤ pos (suc n * m.unit)

-- A period is a uint64.
unfoldable pub next_period : ℕ → ℕ
next_period period = (period + 1) % 2 ^ 64

unfoldable pub previous_period : ℕ → ℕ
previous_period period = (period + (2 ^ 64 - 1)) % 2 ^ 64

pub record YieldedTokenInfo : Type 0 where
  pub remaining_amount : Coin
  pub start_block_height_to_yield : ℤ
  pub amount_yielded_per_block : SdkDec

pub record LockInfo : Type 0 where
  pub owner : String
  pub pool_name : String
  pub amount : Coin
  pub start_block_height : ℤ
  pub reference_period : ℕ

pub record Params : Type 0 where
  pub quote_symbol : String
  pub create_pool_fee : Coin
  pub create_pool_deposit : Coin
  pub yield_native_token : Bool

pub record MsgCreatePool : Type 0 where
  pub owner : String
  pub pool_name : String
  pub min_lock_amount : Coin
  pub yielded_symbol : String

pub record MsgDestroyPool : Type 0 where
  pub owner : String
  pub pool_name : String

pub record MsgProvide : Type 0 where
  pub pool_name : String
  pub address : String
  pub amount : Coin
  pub amount_yielded_per_block : SdkDec
  pub start_height_to_yield : ℤ

-- MsgLock and MsgUnlock have the same fields.
pub record MsgLock : Type 0 where
  pub pool_name : String
  pub address : String
  pub amount : Coin

pub record MsgClaim : Type 0 where
  pub pool_name : String
  pub address : String

module _ {m : DecMath} (s : CoinSets m) where
  open s use {Coins}

  pub record FarmPool : Type 0 where
    pub owner : String
    pub name : String
    pub min_lock_amount : Coin
    pub deposit_amount : Coin
    pub total_value_locked : Coin
    pub yielded_token_infos : List YieldedTokenInfo
    pub total_accumulated_rewards : Coins

  pub record PoolHistoricalRewards : Type 0 where
    pub cumulative_reward_ratio : Coins
    pub reference_count : ℕ

  pub record PoolCurrentRewards : Type 0 where
    pub start_block_height : ℤ
    pub period : ℕ
    pub rewards : Coins

  -- The store, the bank, the block's height and what the handlers read of other modules.
  pub record State (k : ModuleBank s) : Type 0 where
    pub pools : String → Option FarmPool
    pub locks : String → String → Option LockInfo
    pub addresses : String → String → Bool
    pub whitelist : String → Bool
    pub current : String → Option PoolCurrentRewards
    pub historical : String → ℕ → Option PoolHistoricalRewards
    pub bank : k.Bank
    pub height : ℤ
    pub params : Params
    pub token_exist : String → Bool
    pub fee_collector : String

-- A write to a store by number; `none` deletes.
abbrev pub update_at {ℓ} : {A : Type ℓ} → (ℕ → A) → ℕ → A → ℕ → A
update_at f key value k = if key == k then value else f k
