-- ===== src/Dex/Types.antt =====
-- x/dex/types: trading pairs, withdrawals, changes of ownership and operators; the messages of
-- msgs.go, the parameters, and the stores of x/dex/keeper. A store that the keeper iterates over is a
-- list of entries. A time is a number; what becomes of strings of bytes is left out.
use Prim.Native.String.{String, ◌++◌ as append_text}
use okexchain.Base.{ℕ, ℤ, pos, ltb_ℤ, Bool, List, Option}
use okexchain.Sdk.{SdkDec, DecMath, Coin, coin}
use okexchain.Sdk.Sets.{CoinSets, ModuleBank}

-- ModuleName
abbrev pub dex_account : String
dex_account = "dex"

abbrev pub Time : Type 0
Time = ℤ

-- After of Go's time
abbrev pub after : Time → Time → Bool
after a b = ltb_ℤ b a

pub record TokenPair : Type 0 where
  pub base_asset_symbol : String
  pub quote_asset_symbol : String
  pub init_price : SdkDec
  pub max_price_digit : ℤ
  pub max_quantity_digit : ℤ
  pub min_quantity : SdkDec
  pub id : ℕ
  pub delisting : Bool
  pub owner : String
  pub deposits : Coin
  pub block_height : ℤ

-- The key that SaveTokenPair builds, and the names that handleMsgList looks up.
abbrev pub pair_key : String → String → String
pair_key base quote = append_text base (append_text "_" quote)

-- Name
abbrev pub pair_name : TokenPair → String
pair_name pair = pair_key pair.base_asset_symbol pair.quote_asset_symbol

pub record WithdrawInfo : Type 0 where
  pub owner : String
  pub deposits : Coin
  pub complete_time : Time

pub record ConfirmOwnership : Type 0 where
  pub product : String
  pub from_address : String
  pub to_address : String
  pub expire : Time

pub record DexOperator : Type 0 where
  pub address : String
  pub handling_fee_address : String
  pub website : String
  pub init_height : ℤ
  pub tx_hash : String

pub record MsgList : Type 0 where
  pub owner : String
  pub list_asset : String
  pub quote_asset : String
  pub init_price : SdkDec

pub record MsgDeposit : Type 0 where
  pub product : String
  pub amount : Coin
  pub depositor : String

pub record MsgWithdraw : Type 0 where
  pub product : String
  pub amount : Coin
  pub depositor : String

pub record MsgTransferOwnership : Type 0 where
  pub from_address : String
  pub to_address : String
  pub product : String

pub record MsgConfirmOwnership : Type 0 where
  pub product : String
  pub address : String

pub record MsgCreateOperator : Type 0 where
  pub owner : String
  pub website : String
  pub handling_fee_address : String

pub record MsgUpdateOperator : Type 0 where
  pub owner : String
  pub website : String
  pub handling_fee_address : String

pub data DexError : Type 0 where
  token_of_pair_not_exist unknown_operator token_pair_existed insufficient_fee_coins : DexError
  is_transferring_owner invalid_token_pair must_token_pair_owner : DexError
  deposit_only_support_denom insufficient_deposit_coins withdraw_only_support_denom : DexError
  insufficient_withdraw_coins deposit_failed withdraw_failed token_pair_not_found unauthorized
        repeated_transfer_owner :
      DexError
  confirm_ownership_not_exist transfer_owner_expired exist_operator : DexError
  address_is_required invalid_coins insufficient_coins unauthorized_operator is_token_pair_locked
        invalid_address panicked :
      DexError

-- The parameters of x/dex/types/params.go that the handlers read, sdk.DefaultBondDenom, and the name
-- of the account that collects fees.
pub record DexParams : Type 0 where
  pub list_fee : Coin
  pub transfer_ownership_fee : Coin
  pub register_operator_fee : Coin
  pub withdraw_period : ℤ
  pub ownership_confirm_window : ℤ
  pub bond_denom : String
  pub fee_collector : String

-- The block and the transaction, the tokens that x/token knows, the locks that x/order has put on
-- pairs, and IsValid of a coin. The hash is that of the transaction's bytes.
pub record Context : Type 0 where
  pub time : Time
  pub height : ℤ
  pub tx_hash : String
  pub token_exist : String → Bool
  pub is_token_pair_locked : String → Bool
  pub is_valid : Coin → Bool

-- DefaultTokenPairDeposit
abbrev pub default_token_pair_deposit : DexParams → Coin
default_token_pair_deposit params = coin params.bond_denom (pos 0)

module _ {m : DecMath} (s : CoinSets m) (k : ModuleBank s) where
  -- The stores of the keeper, under their prefixes, and the bank.
  pub record DexState : Type 0 where
    pub pairs : List (String × TokenPair)
    pub user_pairs : String → String → Bool
    pub withdraws : List (String × WithdrawInfo)
    pub withdraw_times : List (Time × String)
    pub confirms : String → Option ConfirmOwnership
    pub operators : String → Option DexOperator
    pub max_token_pair_id : ℕ
    pub bank : k.Bank
