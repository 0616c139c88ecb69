-- ===== src/Dex/Handler.antt =====
-- x/dex/handler.go, endblocker.go, proposal_handler.go and the hooks of keeper/proposal.go: the messages,
-- the end of a block, and what the governance module does to a trading pair. A message that fails
-- changes nothing; no more does a proposal's handler that fails.
use Prim.Native.String.{String}
use text.Mathlib.Text.{◌==◌ as string_eq}
use okexchain.Base.{
  ◌/◌, pos, ◌+ℤ◌, ltb_ℤ, Bool, true, false, not, ◌||◌, List, [], ◌∷◌, Option, none, some,
  if◌then◌else◌, Result, ok, err, ◌>>=◌, ◌>>◌, fail_if, or_fail, failing, update,
}
use okexchain.Sdk.{DecMath, Coin, CoinMath}
use okexchain.Sdk.Sets.{CoinSets, ModuleBank}
use okexchain.Dex.Types
use okexchain.Dex.Types.{
  Time, after, TokenPair, pair_name, pair_key, ConfirmOwnership, DexOperator, DexParams, Context,
  DexState, default_token_pair_deposit, MsgList, MsgDeposit, MsgWithdraw, MsgTransferOwnership,
  MsgConfirmOwnership, MsgCreateOperator, MsgUpdateOperator, DexError,
}
use okexchain.Dex.Keeper.{
  to_coins, get_token_pair, update_token_pair, save_token_pair, delete_token_pair_by_name,
  update_user_token_pair, deposit, withdraw, complete_withdraw, due_keys, delete_withdraw_time,
}

abbrev pub is_some {ℓ} : {A : Type ℓ} → Option A → Bool
is_some none = false
is_some (some a) = true

-- A change of ownership whose window has not passed
abbrev pub is_transferring : Time → Option ConfirmOwnership → Bool
is_transferring now none = false
is_transferring now (some confirm) = not (after now confirm.expire)

module _ {m : DecMath} (s : CoinSets m) (k : ModuleBank s) (c : CoinMath) (params : DexParams) where
  abbrev pub Outcome : Type 0
  Outcome = Result DexError (DexState s k)

  -- The deduction of a fee from an account
  unfoldable pub charge_fee : String → Coin → DexError → DexState s k → Outcome
  charge_fee owner fee stop st = do
    bank ←
        or_fail (k.account_to_module owner params.fee_collector (to_coins s k c params fee) st.bank)
          stop
    ok (record st { bank = bank })

  -- The pair that handleMsgList makes
  unfoldable pub new_token_pair : Context → MsgList → TokenPair
  new_token_pair ctx msg = record {
    base_asset_symbol = msg.list_asset;
    quote_asset_symbol = msg.quote_asset;
    init_price = msg.init_price;
    max_price_digit = pos 4;
    max_quantity_digit = pos 4;
    min_quantity = pos (m.unit / 100000000);
    id = 0;
    delisting = false;
    owner = msg.owner;
    deposits = default_token_pair_deposit params;
    block_height = ctx.height;
  }

  -- handleMsgList
  unfoldable pub handle_msg_list : Context → MsgList → DexState s k → Outcome
  handle_msg_list ctx msg st = do
    fail_if (not (ctx.token_exist msg.list_asset) || not (ctx.token_exist msg.quote_asset))
        Types.token_of_pair_not_exist
    fail_if (not (is_some (st.operators msg.owner))) Types.unknown_operator
    fail_if
        (is_some (get_token_pair s k c params (pair_key msg.list_asset msg.quote_asset) st)
          || is_some (get_token_pair s k c params (pair_key msg.quote_asset msg.list_asset) st))
        Types.token_pair_existed
    st1 ← charge_fee msg.owner params.list_fee Types.insufficient_fee_coins st
    ok (save_token_pair s k c params (new_token_pair ctx msg) st1)

  -- handleMsgDeposit
  unfoldable pub handle_msg_deposit : Context → MsgDeposit → DexState s k → Outcome
  handle_msg_deposit ctx msg st = do
    fail_if (is_transferring ctx.time (st.confirms msg.product)) Types.is_transferring_owner
    failing Types.deposit_failed (deposit s k c params msg.product msg.depositor msg.amount st)

  -- handleMsgWithDraw
  unfoldable pub handle_msg_withdraw : Context → MsgWithdraw → DexState s k → Outcome
  handle_msg_withdraw ctx msg st = withdraw s k c params ctx msg.product msg.depositor msg.amount st

  -- What is deposited for a pair is withdrawn where it is positive.
  unfoldable pub withdraw_deposits : Context → String → String → Coin → DexState s k → Outcome
  withdraw_deposits ctx product to deposits st =
      if ltb_ℤ (pos 0) deposits.amount
      then failing Types.withdraw_failed (withdraw s k c params ctx product to deposits st)
      else ok st

  -- handleMsgTransferOwnership
  unfoldable pub handle_msg_transfer_ownership :
      Context → MsgTransferOwnership → DexState s k → Outcome
  handle_msg_transfer_ownership ctx msg st = do
    pair ← or_fail (get_token_pair s k c params msg.product st) Types.token_pair_not_found
    fail_if (not (string_eq pair.owner msg.from_address)) Types.unauthorized
    fail_if (not (is_some (st.operators msg.to_address))) Types.unknown_operator
    fail_if (is_transferring ctx.time (st.confirms msg.product)) Types.repeated_transfer_owner
    st1 ← withdraw_deposits ctx msg.product msg.from_address pair.deposits st
    st2 ← charge_fee msg.from_address params.transfer_ownership_fee Types.insufficient_fee_coins st1
    let confirm : ConfirmOwnership = record {
      product = msg.product;
      from_address = msg.from_address;
      to_address = msg.to_address;
      expire = ctx.time +ℤ params.ownership_confirm_window;
    }
    ok (record st2 { confirms = update st2.confirms msg.product (some confirm) })

  -- The end of handleMsgConfirmOwnership
  unfoldable pub take_ownership :
      MsgConfirmOwnership → ConfirmOwnership → TokenPair → DexState s k → DexState s k
  take_ownership msg confirm pair st =
      let st1 : DexState s k =
        update_user_token_pair s k c params msg.product confirm.from_address msg.address
          (update_token_pair s k c params msg.product (record pair { owner = msg.address }) st) in
      record st1 { confirms = update st1.confirms confirm.product none }

  -- handleMsgConfirmOwnership. The deletion of an expired confirmation goes with the failed message.
  unfoldable pub handle_msg_confirm_ownership :
      Context → MsgConfirmOwnership → DexState s k → Outcome
  handle_msg_confirm_ownership ctx msg st = do
    confirm ← or_fail (st.confirms msg.product) Types.confirm_ownership_not_exist
    fail_if (after ctx.time confirm.expire) Types.transfer_owner_expired
    fail_if (not (string_eq confirm.to_address msg.address)) Types.unauthorized
    pair ← or_fail (get_token_pair s k c params msg.product st) Types.token_pair_not_found
    ok (take_ownership msg confirm pair st)

  -- SetOperator
  abbrev pub set_operator : DexOperator → DexState s k → DexState s k
  set_operator operator st = record st {
    operators = update st.operators operator.address (some operator);
  }

  -- handleMsgCreateOperator
  unfoldable pub handle_msg_create_operator : Context → MsgCreateOperator → DexState s k → Outcome
  handle_msg_create_operator ctx msg st = do
    fail_if (is_some (st.operators msg.owner)) Types.exist_operator
    let operator : DexOperator = record {
      address = msg.owner;
      handling_fee_address = msg.handling_fee_address;
      website = msg.website;
      init_height = ctx.height;
      tx_hash = ctx.tx_hash;
    }
    charge_fee msg.owner params.register_operator_fee Types.insufficient_coins
        (set_operator operator st)

  -- handleMsgUpdateOperator
  unfoldable pub handle_msg_update_operator : MsgUpdateOperator → DexState s k → Outcome
  handle_msg_update_operator msg st = do
    operator ← or_fail (st.operators msg.owner) Types.unknown_operator
    fail_if (not (string_eq operator.address msg.owner)) Types.unauthorized_operator
    let updated : DexOperator = record operator {
      handling_fee_address = msg.handling_fee_address;
      website = msg.website;
    }
    ok (set_operator updated st)

  -- The body of the loop of EndBlocker, with the outcome of CompleteWithdraw
  abbrev pub after_complete : Time → String → DexState s k → Outcome → DexState s k
  after_complete time addr st (err stop) = st
  after_complete time addr st (ok st1) = record st1 {
    withdraw_times = delete_withdraw_time time addr st1.withdraw_times;
  }

  unfoldable pub complete_all : List (Time × String) → DexState s k → DexState s k
  complete_all [] st = st
  complete_all ((time, addr) ∷ keys) st =
      complete_all keys (after_complete time addr st (complete_withdraw s k c params addr st))

  -- EndBlocker
  unfoldable pub end_blocker : Time → DexState s k → DexState s k
  end_blocker now st = complete_all (due_keys now st.withdraw_times) st

  -- handleDelistProposal
  unfoldable pub handle_delist_proposal : Context → String → String → DexState s k → Outcome
  handle_delist_proposal ctx base quote st = do
    pair ← or_fail (get_token_pair s k c params (pair_key base quote) st) Types.token_pair_not_found
    fail_if (ctx.is_token_pair_locked (pair_key base quote)) Types.is_token_pair_locked
    st1 ← withdraw_deposits ctx (pair_name pair) pair.owner pair.deposits st
    ok (delete_token_pair_by_name s k c params pair.owner (pair_key base quote) st1)

  abbrev pub mark_delisting : Bool → String → Option TokenPair → DexState s k → DexState s k
  mark_delisting delisting product none st = st
  mark_delisting delisting product (some pair) st =
      update_token_pair s k c params product (record pair { delisting = delisting }) st

  -- RejectedHandler and AfterDepositPeriodPassed, for a proposal to delist
  unfoldable pub rejected_handler : String → String → DexState s k → DexState s k
  rejected_handler base quote st =
      mark_delisting false (pair_key base quote)
        (get_token_pair s k c params (pair_key base quote) st) st

  unfoldable pub after_deposit_period_passed : String → String → DexState s k → DexState s k
  after_deposit_period_passed base quote st =
      mark_delisting true (pair_key base quote)
        (get_token_pair s k c params (pair_key base quote) st) st
