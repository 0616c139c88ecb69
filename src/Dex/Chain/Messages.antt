-- ===== src/Dex/Chain/Messages.antt =====
-- The account of x/dex against what the module owes, through the handlers.
use Prim.Native.String.{String}
use text.Mathlib.Text.{◌==◌ as string_eq}
use okexchain.Base.{
  ◌≡◌, refl, sym, ap, ◌∙◌, subst, pos, ◌-ℤ◌, Bool, false, not, ◌||◌, Option, none, some, ok,
  >>=-eq-ok, or_fail->>=-eq-ok, fail_if->>-eq-ok, failing-eq-ok, ok-eq, or_false, -ℤ_zero, get,
  at_option, total-delete, ◌≤ℤ◌,
}
use okexchain.Sdk.{DecMath, CoinMath}
use okexchain.Sdk.Coins.{held}
use okexchain.Sdk.Sets.{CoinSets, ModuleBank}
use okexchain.Dex.Types
use okexchain.Dex.Types.{
  Time, TokenPair, pair_name, pair_key, DexParams, Context, DexState, dex_account, DexError,
  MsgList, MsgDeposit, MsgWithdraw, MsgTransferOwnership, MsgConfirmOwnership, MsgCreateOperator,
  MsgUpdateOperator, ConfirmOwnership, DexOperator,
}
use okexchain.Dex.Keeper.{
  get_token_pair, update_token_pair, delete_token_pair_by_name, update_user_token_pair, deposit,
}
use okexchain.Dex.Handler.{
  charge_fee, new_token_pair, handle_msg_list, handle_msg_deposit, withdraw_deposits,
  handle_msg_transfer_ownership, take_ownership, handle_msg_confirm_ownership,
  handle_msg_create_operator, handle_msg_update_operator, set_operator, handle_delist_proposal,
  mark_delisting, is_some, is_transferring,
}
use okexchain.Dex.Sound.{delete-ArePairs}
use okexchain.Dex.Backed.{IsSound, deposited, withdrawing, Keeps, trans-Keeps, deposit-Keeps}
use okexchain.Dex.Chain.Keeps.{
  update_token_pair-Keeps, charge_fee-Keeps, save_token_pair-Keeps, withdraw_deposits-Keeps,
}

is_some-none : {A : Type 0} (o : Option A) → is_some o ≡ false → o ≡ none
is_some-none none h = refl
is_some-none (some a) h = cc

module _ {m : DecMath} (s : CoinSets m) (k : ModuleBank s) (c : CoinMath) (params : DexParams)
    (apart : string_eq params.fee_collector dex_account ≡ false) where
  open k use {balance}

  abbrev Kept : DexState s k → DexState s k → Type 0
  Kept st st' = Keeps s k c params st st'

  abbrev Sound : DexState s k → Type 0
  Sound st = IsSound s k c params st

  -- Of the stores, the account depends on those of the pairs and of the withdrawals.
  abbrev others :
      DexState s k
      → (String → String → Bool)
      → (String → Option ConfirmOwnership)
      → (String → Option DexOperator)
      → DexState s k
  others st user_pairs confirms operators = record st {
    user_pairs = user_pairs;
    confirms = confirms;
    operators = operators;
  }

  others-Keeps :
      (st : DexState s k) (user_pairs : String → String → Bool)
      (confirms : String → Option ConfirmOwnership) (operators : String → Option DexOperator)
      → Sound st
      → Kept st (others st user_pairs confirms operators)
  others-Keeps st user_pairs confirms operators sound =
      (record { pairs = sound.pairs; withdraws = sound.withdraws }, λ d. refl)

  pub handle_msg_list-Keeps :
      (ctx : Context) (msg : MsgList) (st st' : DexState s k)
      → Sound st
      → handle_msg_list s k c params ctx msg st ≡ ok st'
      → Kept st st'
  unfolding handle_msg_list
  handle_msg_list-Keeps ctx msg st st' sound h =
      let key = pair_key msg.list_asset msg.quote_asset in
      let (_, h1) =
        fail_if->>-eq-ok
          (not (ctx.token_exist msg.list_asset) || not (ctx.token_exist msg.quote_asset)) _ _ h in
      let (_, h2) = fail_if->>-eq-ok (not (is_some (st.operators msg.owner))) _ _ h1 in
      let (both, h3) =
        fail_if->>-eq-ok
          (is_some (get_token_pair s k c params key st)
            || is_some (get_token_pair s k c params (pair_key msg.quote_asset msg.list_asset) st))
          _ _ h2 in
      let (st1, charged, h4) =
        >>=-eq-ok
          (charge_fee s k c params msg.owner params.list_fee Types.insufficient_fee_coins st) _
          h3 in
      let (kept, pairs) =
        charge_fee-Keeps s k c params apart msg.owner params.list_fee Types.insufficient_fee_coins
          st st1 sound charged in
      let free : get key st1.pairs ≡ none =
        ap (get key) pairs ∙ is_some-none (get key st.pairs) (or_false _ _ both).0 in
      subst (Kept st) (ok-eq h4) (
        trans-Keeps s k c params st st1 _ kept (
          save_token_pair-Keeps s k c params apart (new_token_pair s k c params ctx msg) st1
            (unfold new_token_pair in free) (unfold new_token_pair in refl) kept.0))

  pub handle_msg_deposit-Keeps :
      (ctx : Context) (msg : MsgDeposit) (st st' : DexState s k)
      → pos 0 ≤ℤ msg.amount.amount
      → Sound st
      → handle_msg_deposit s k c params ctx msg st ≡ ok st'
      → Kept st st'
  unfolding handle_msg_deposit
  handle_msg_deposit-Keeps ctx msg st st' rich sound h =
      let (_, h1) = fail_if->>-eq-ok (is_transferring ctx.time (st.confirms msg.product)) _ _ h in
      deposit-Keeps s k c params msg.product msg.depositor msg.amount st st' rich sound (
        failing-eq-ok Types.deposit_failed
          (deposit s k c params msg.product msg.depositor msg.amount st) h1)

  pub handle_msg_transfer_ownership-Keeps :
      (ctx : Context) (msg : MsgTransferOwnership) (st st' : DexState s k)
      → Sound st
      → handle_msg_transfer_ownership s k c params ctx msg st ≡ ok st'
      → Kept st st'
  unfolding handle_msg_transfer_ownership
  handle_msg_transfer_ownership-Keeps ctx msg st st' sound h =
      let (pair, found, h1) =
        or_fail->>=-eq-ok (get_token_pair s k c params msg.product st) _ _ h in
      let (_, h2) = fail_if->>-eq-ok (not (string_eq pair.owner msg.from_address)) _ _ h1 in
      let (_, h3) = fail_if->>-eq-ok (not (is_some (st.operators msg.to_address))) _ _ h2 in
      let (_, h4) = fail_if->>-eq-ok (is_transferring ctx.time (st.confirms msg.product)) _ _ h3 in
      let (st1, drawn, h5) =
        >>=-eq-ok (withdraw_deposits s k c params ctx msg.product msg.from_address pair.deposits st)
          _ h4 in
      let (st2, charged, h6) =
        >>=-eq-ok
          (charge_fee s k c params msg.from_address params.transfer_ownership_fee
            Types.insufficient_fee_coins st1)
          _ h5 in
      let (kept, _) =
        withdraw_deposits-Keeps s k c params apart ctx msg.product msg.from_address pair st st1
          found sound drawn in
      let (kept', _) =
        charge_fee-Keeps s k c params apart msg.from_address params.transfer_ownership_fee
          Types.insufficient_fee_coins st1 st2 kept.0 charged in
      let both = trans-Keeps s k c params st st1 st2 kept kept' in
      trans-Keeps s k c params st st2 st' both
        (subst (Kept st2) (ok-eq h6) (others-Keeps st2 st2.user_pairs _ st2.operators both.0))

  pub handle_msg_confirm_ownership-Keeps :
      (ctx : Context) (msg : MsgConfirmOwnership) (st st' : DexState s k)
      → Sound st
      → handle_msg_confirm_ownership s k c params ctx msg st ≡ ok st'
      → Kept st st'
  unfolding handle_msg_confirm_ownership take_ownership update_user_token_pair
  handle_msg_confirm_ownership-Keeps ctx msg st st' sound h =
      let (confirm, _, h1) = or_fail->>=-eq-ok (st.confirms msg.product) _ _ h in
      let (_, h2) = fail_if->>-eq-ok (Types.after ctx.time confirm.expire) _ _ h1 in
      let (_, h3) = fail_if->>-eq-ok (not (string_eq confirm.to_address msg.address)) _ _ h2 in
      let (pair, found, h4) =
        or_fail->>=-eq-ok (get_token_pair s k c params msg.product st) _ _ h3 in
      let owned : TokenPair = record pair { owner = msg.address } in
      let st1 = update_token_pair s k c params msg.product owned st in
      let kept =
        update_token_pair-Keeps s k c params apart msg.product pair owned st found refl refl
          sound in
      subst (Kept st) (ok-eq h4)
        (trans-Keeps s k c params st st1 _ kept (others-Keeps st1 _ _ st1.operators kept.0))

  pub handle_msg_create_operator-Keeps :
      (ctx : Context) (msg : MsgCreateOperator) (st st' : DexState s k)
      → Sound st
      → handle_msg_create_operator s k c params ctx msg st ≡ ok st'
      → Kept st st'
  unfolding handle_msg_create_operator
  handle_msg_create_operator-Keeps ctx msg st st' sound h =
      let (_, h1) = fail_if->>-eq-ok (is_some (st.operators msg.owner)) _ _ h in
      let operator : DexOperator = record {
        address = msg.owner;
        handling_fee_address = msg.handling_fee_address;
        website = msg.website;
        init_height = ctx.height;
        tx_hash = ctx.tx_hash;
      } in
      let st1 = set_operator s k c params operator st in
      let kept = others-Keeps st st.user_pairs st.confirms st1.operators sound in
      trans-Keeps s k c params st st1 st' kept
        (charge_fee-Keeps s k c params apart msg.owner params.register_operator_fee
          Types.insufficient_coins st1 st' kept.0 h1).0

  pub handle_msg_update_operator-Keeps :
      (msg : MsgUpdateOperator) (st st' : DexState s k)
      → Sound st
      → handle_msg_update_operator s k c params msg st ≡ ok st'
      → Kept st st'
  unfolding handle_msg_update_operator
  handle_msg_update_operator-Keeps msg st st' sound h =
      let (operator, _, h1) = or_fail->>=-eq-ok (st.operators msg.owner) _ _ h in
      let (_, h2) = fail_if->>-eq-ok (not (string_eq operator.address msg.owner)) _ _ h1 in
      subst (Kept st) (ok-eq h2) (others-Keeps st st.user_pairs st.confirms _ sound)

  pub handle_delist_proposal-Keeps :
      (ctx : Context) (base quote : String) (st st' : DexState s k)
      → Sound st
      → handle_delist_proposal s k c params ctx base quote st ≡ ok st'
      → Kept st st'
  unfolding handle_delist_proposal delete_token_pair_by_name
  handle_delist_proposal-Keeps ctx base quote st st' sound h =
      let key = pair_key base quote in
      let (pair, found, h1) = or_fail->>=-eq-ok (get_token_pair s k c params key st) _ _ h in
      let (_, h2) = fail_if->>-eq-ok (ctx.is_token_pair_locked key) _ _ h1 in
      let (st1, drawn, h3) =
        >>=-eq-ok (withdraw_deposits s k c params ctx (pair_name pair) pair.owner pair.deposits st)
          _ h2 in
      let name = sound.pairs.named key pair found in
      let (kept, (left, found', nothing)) =
        withdraw_deposits-Keeps s k c params apart ctx (pair_name pair) pair.owner pair st st1
          (ap (λ a. get a st.pairs) name ∙ found) sound drawn in
      trans-Keeps s k c params st st1 st' kept (
        subst (Kept st1) (ok-eq h3) (
          record {
            pairs = delete-ArePairs key st1.pairs kept.0.pairs;
            withdraws = kept.0.withdraws;
          },
          λ d.
              ap (λ n. balance st1.bank dex_account d -ℤ n -ℤ withdrawing s k c params d st1)
                (total-delete (λ (p : TokenPair). held d p.deposits) key st1.pairs
                  ∙ ap
                      (λ o.
                        deposited s k c params d st1
                        -ℤ at_option (λ (p : TokenPair). held d p.deposits) o)
                      (ap (λ a. get a st1.pairs) (sym name) ∙ found')
                  ∙ ap (λ n. deposited s k c params d st1 -ℤ n) (nothing d)
                  ∙ -ℤ_zero (deposited s k c params d st1)),
        ))

  pub mark_delisting-Keeps :
      (delisting : Bool) (product : String) (o : Option TokenPair) (st : DexState s k)
      → get product st.pairs ≡ o
      → Sound st
      → Kept st (mark_delisting s k c params delisting product o st)
  mark_delisting-Keeps delisting product none st found sound = (sound, λ d. refl)
  mark_delisting-Keeps delisting product (some pair) st found sound =
      update_token_pair-Keeps s k c params apart product pair
        (record pair { delisting = delisting }) st found refl refl sound
