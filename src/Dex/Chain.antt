-- ===== src/Dex/Chain.antt =====
-- What happens to x/dex, as a sequence of events: the dispatch of handler.go, with the checks of
-- ValidateBasic in types/msgs.go that bear on the coins, the end of a block, and governance.
pub mod Keeps
pub mod Messages
pub mod Sequences
use Prim.Native.String.{String}
use text.Mathlib.Text.{◌==◌ as string_eq}
use okexchain.Base.{
  pos, ltb_ℤ, Bool, not, ◌&&◌, ◌||◌, List, [], ◌∷◌, Result, ok, err, ◌>>=◌, ◌>>◌, fail_if,
}
use okexchain.Sdk.{DecMath, Coin, CoinMath}
use okexchain.Sdk.Sets.{CoinSets, ModuleBank}
use okexchain.Dex.Types.{
  Time, DexParams, Context, DexState, MsgList, MsgDeposit, MsgWithdraw, MsgTransferOwnership,
  MsgConfirmOwnership, MsgCreateOperator, MsgUpdateOperator, DexError, address_is_required,
  invalid_coins,
}
use okexchain.Dex.Handler.{
  Outcome, handle_msg_list, handle_msg_deposit, handle_msg_withdraw, handle_msg_transfer_ownership,
  handle_msg_confirm_ownership, handle_msg_create_operator, handle_msg_update_operator, end_blocker,
  handle_delist_proposal, rejected_handler, after_deposit_period_passed,
}

pub data Event : Type 0 where
  list : Context → MsgList → Event
  deposit : Context → MsgDeposit → Event
  withdraw : Context → MsgWithdraw → Event
  transfer_ownership : Context → MsgTransferOwnership → Event
  confirm_ownership : Context → MsgConfirmOwnership → Event
  create_operator : Context → MsgCreateOperator → Event
  update_operator : MsgUpdateOperator → Event
  end_block : Time → Event
  delist : Context → String → String → Event
  delist_rejected delist_period_passed : String → String → Event

-- ValidateBasic of MsgDeposit and of MsgWithdraw
unfoldable pub validate_amount : Context → String → Coin → Result DexError (Unit {0})
validate_amount ctx depositor amount = do
  fail_if (string_eq depositor "") address_is_required
  fail_if (not (ctx.is_valid amount) || not (ltb_ℤ (pos 0) amount.amount)) invalid_coins

module _ {m : DecMath} (s : CoinSets m) (k : ModuleBank s) (c : CoinMath) (params : DexParams) where
  -- A message or a proposal that fails is undone.
  abbrev pub or_undone : DexState s k → Outcome s k c params → DexState s k
  or_undone st (err e) = st
  or_undone st (ok st') = st'

  -- NewHandler, NewProposalHandler and EndBlocker
  unfoldable pub apply : Event → DexState s k → DexState s k
  apply (list ctx msg) st = or_undone st (handle_msg_list s k c params ctx msg st)
  apply (deposit ctx msg) st =
      or_undone st
        (validate_amount ctx msg.depositor msg.amount >> handle_msg_deposit s k c params ctx msg st)
  apply (withdraw ctx msg) st =
      or_undone st (
        validate_amount ctx msg.depositor msg.amount >> handle_msg_withdraw s k c params ctx msg st)
  apply (transfer_ownership ctx msg) st =
      or_undone st (handle_msg_transfer_ownership s k c params ctx msg st)
  apply (confirm_ownership ctx msg) st =
      or_undone st (handle_msg_confirm_ownership s k c params ctx msg st)
  apply (create_operator ctx msg) st =
      or_undone st (handle_msg_create_operator s k c params ctx msg st)
  apply (update_operator msg) st = or_undone st (handle_msg_update_operator s k c params msg st)
  apply (end_block now) st = end_blocker s k c params now st
  apply (delist ctx base quote) st =
      or_undone st (handle_delist_proposal s k c params ctx base quote st)
  apply (delist_rejected base quote) st = rejected_handler s k c params base quote st
  apply (delist_period_passed base quote) st =
      after_deposit_period_passed s k c params base quote st

  unfoldable pub run : List Event → DexState s k → DexState s k
  run [] st = st
  run (event ∷ events) st = run events (apply event st)
