-- ===== src/Dex/Chain/Sequences.antt =====
-- The account of x/dex against what the module owes, through a sequence of events.
use Prim.Native.String.{String}
use text.Mathlib.Text.{◌==◌ as string_eq}
use okexchain.Base.{
  ◌≡◌, refl, ℤ, pos, ◌≤ℤ◌, ltb_ℤ, arith, Bool, true, false, not, ◌||◌, List, [], ◌∷◌, Result, ok,
  err, ◌>>◌, fail_if, fail_if->>-eq-ok,
}
use okexchain.Sdk.{DecMath, Coin, CoinMath}
use okexchain.Sdk.Sets.{CoinSets, ModuleBank}
use okexchain.Dex.Types.{
  DexParams, Context, DexState, dex_account, DexError, pair_key, address_is_required, invalid_coins,
}
use okexchain.Dex.Keeper.{get_token_pair}
use okexchain.Dex.Handler.{
  Outcome, end_blocker, rejected_handler, after_deposit_period_passed, handle_msg_list,
  handle_msg_deposit, handle_msg_withdraw, handle_msg_transfer_ownership,
  handle_msg_confirm_ownership, handle_msg_create_operator, handle_msg_update_operator,
  handle_delist_proposal,
}
use okexchain.Dex.Backed.{IsSound, surplus, Keeps, trans-Keeps}
use okexchain.Dex.Chain.{
  Event, list, deposit, withdraw, transfer_ownership, confirm_ownership, create_operator,
  update_operator, end_block, delist, delist_rejected, delist_period_passed, validate_amount, apply,
  or_undone, run,
}
use okexchain.Dex.Backed.Withdraw.{withdraw-Keeps}
use okexchain.Dex.Chain.Messages.{
  handle_msg_list-Keeps, handle_msg_deposit-Keeps, handle_msg_transfer_ownership-Keeps,
  handle_msg_confirm_ownership-Keeps, handle_msg_create_operator-Keeps,
  handle_msg_update_operator-Keeps, handle_delist_proposal-Keeps, mark_delisting-Keeps,
}
use okexchain.Dex.Due.{end_blocker-Keeps}

validate_amount-positive :
    (ctx : Context) (depositor : String) (amount : Coin)
    → validate_amount ctx depositor amount ≡ ok tt
    → pos 0 ≤ℤ amount.amount
unfolding validate_amount
validate_amount-positive ctx depositor amount h =
    let (_, h1) = fail_if->>-eq-ok (string_eq depositor "") address_is_required _ h in
    positive (not (ctx.is_valid amount)) amount.amount h1
  where
    positive :
        (bad : Bool) (a : ℤ)
        → fail_if (bad || not (ltb_ℤ (pos 0) a)) invalid_coins ≡ ok tt
        → pos 0 ≤ℤ a
    positive true a h = cc
    positive false a h = ground arith

module _ {m : DecMath} (s : CoinSets m) (k : ModuleBank s) (c : CoinMath) (params : DexParams)
    (apart : string_eq params.fee_collector dex_account ≡ false) where
  Kept : DexState s k → DexState s k → Type 0
  Kept st st' = Keeps s k c params st st'

  or_undone-Keeps :
      (st : DexState s k) (o : Outcome s k c params)
      → IsSound s k c params st
      → ((st' : DexState s k) → o ≡ ok st' → Kept st st')
      → Kept st (or_undone s k c params st o)
  unfolding Kept
  or_undone-Keeps st (err e) sound h = (sound, λ d. refl)
  or_undone-Keeps st (ok st') sound h = h st' refl

  -- A handler behind a check of the amount
  checked-Keeps :
      (st : DexState s k) (check : Result DexError (Unit {0})) (o : Outcome s k c params)
      → IsSound s k c params st
      → ((st' : DexState s k) → check ≡ ok tt → o ≡ ok st' → Kept st st')
      → Kept st (or_undone s k c params st (check >> o))
  unfolding Kept
  checked-Keeps st (err e) o sound h = (sound, λ d. refl)
  checked-Keeps st (ok tt) o sound h = or_undone-Keeps st o sound (λ st' e. h st' refl e)

  apply-Keeps :
      (event : Event) (st : DexState s k)
      → IsSound s k c params st
      → Kept st (apply s k c params event st)
  unfolding apply Kept end_blocker rejected_handler after_deposit_period_passed handle_msg_withdraw
  apply-Keeps (list ctx msg) st sound =
      or_undone-Keeps st (handle_msg_list s k c params ctx msg st) sound
        (λ st' h. handle_msg_list-Keeps s k c params apart ctx msg st st' sound h)
  apply-Keeps (deposit ctx msg) st sound =
      checked-Keeps st (validate_amount ctx msg.depositor msg.amount)
        (handle_msg_deposit s k c params ctx msg st) sound
        (λ st' e h.
          handle_msg_deposit-Keeps s k c params apart ctx msg st st'
            (validate_amount-positive ctx msg.depositor msg.amount e) sound h)
  apply-Keeps (withdraw ctx msg) st sound =
      checked-Keeps st (validate_amount ctx msg.depositor msg.amount)
        (handle_msg_withdraw s k c params ctx msg st) sound
        (λ st' e h.
          (withdraw-Keeps s k c params ctx msg.product msg.depositor msg.amount st st'
            (validate_amount-positive ctx msg.depositor msg.amount e) sound h).0)
  apply-Keeps (transfer_ownership ctx msg) st sound =
      or_undone-Keeps st (handle_msg_transfer_ownership s k c params ctx msg st) sound
        (λ st' h. handle_msg_transfer_ownership-Keeps s k c params apart ctx msg st st' sound h)
  apply-Keeps (confirm_ownership ctx msg) st sound =
      or_undone-Keeps st (handle_msg_confirm_ownership s k c params ctx msg st) sound
        (λ st' h. handle_msg_confirm_ownership-Keeps s k c params apart ctx msg st st' sound h)
  apply-Keeps (create_operator ctx msg) st sound =
      or_undone-Keeps st (handle_msg_create_operator s k c params ctx msg st) sound
        (λ st' h. handle_msg_create_operator-Keeps s k c params apart ctx msg st st' sound h)
  apply-Keeps (update_operator msg) st sound =
      or_undone-Keeps st (handle_msg_update_operator s k c params msg st) sound
        (λ st' h. handle_msg_update_operator-Keeps s k c params apart msg st st' sound h)
  apply-Keeps (end_block now) st sound = end_blocker-Keeps s k c params now st sound
  apply-Keeps (delist ctx base quote) st sound =
      or_undone-Keeps st (handle_delist_proposal s k c params ctx base quote st) sound
        (λ st' h. handle_delist_proposal-Keeps s k c params apart ctx base quote st st' sound h)
  apply-Keeps (delist_rejected base quote) st sound =
      mark_delisting-Keeps s k c params apart false (pair_key base quote)
        (get_token_pair s k c params (pair_key base quote) st) st refl sound
  apply-Keeps (delist_period_passed base quote) st sound =
      mark_delisting-Keeps s k c params apart true (pair_key base quote)
        (get_token_pair s k c params (pair_key base quote) st) st refl sound

  -- From a state whose pairs stand under their names, whose withdrawals stand under their owners and
  -- have a key at their time, and in which no amount is negative, every sequence of messages, ends of
  -- blocks and decisions on delisting leads to such a state, and what the module's account holds
  -- beyond the deposits and the withdrawals stays the same, in every denomination. The account that
  -- collects fees is another one.
  pub run-Keeps :
      (events : List Event) (st : DexState s k)
      → IsSound s k c params st
      → IsSound s k c params (run s k c params events st)
        × ((d : String)
            → surplus s k c params d (run s k c params events st) ≡ surplus s k c params d st)
  unfolding run Kept
  run-Keeps [] st sound = (sound, λ d. refl)
  run-Keeps (event ∷ events) st sound =
      let kept = apply-Keeps event st sound in
      let st1 = apply s k c params event st in
      trans-Keeps s k c params st st1 _ kept (run-Keeps events st1 kept.0)
