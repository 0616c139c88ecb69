-- ===== src/Dex/Ownership.antt =====
-- A change of ownership that a delisting does not end: handleMsgTransferOwnership, handleDelistProposal,
-- handleMsgList and handleMsgConfirmOwnership of x/dex.
use Prim.Native.String.{String}
use text.Mathlib.Text.{◌==◌ as string_eq}
use okexchain.Base.{
  ◌≡◌, refl, sym, ap, ◌∙◌, inl, inr, pos, ◌+ℤ◌, ltb_ℤ, Bool, true, false, not, ◌||◌, Bool-cases,
  Option, some, if◌then◌else◌, ok, >>=-eq-ok, or_fail->>=-eq-ok, fail_if->>-eq-ok, failing-eq-ok,
  ok-eq, get, get-put_self, update, string_eq_refl,
}
use okexchain.Sdk.{DecMath, Coin, CoinMath}
use okexchain.Sdk.Sets.{CoinSets, ModuleBank}
use okexchain.Dex.Types
use okexchain.Dex.Types.{
  Time, after, TokenPair, pair_name, pair_key, DexParams, Context, DexState, DexError, MsgList,
  MsgTransferOwnership, MsgConfirmOwnership, ConfirmOwnership,
}
use okexchain.Dex.Keeper.{
  to_coins, get_token_pair, save_token_pair, token_pair_id, delete_token_pair_by_name,
  update_user_token_pair, update_user_pair, joined_withdraw, add_withdraw, withdraw,
}
use okexchain.Dex.Handler.{
  charge_fee, new_token_pair, handle_msg_list, withdraw_deposits, handle_msg_transfer_ownership,
  take_ownership, handle_msg_confirm_ownership, handle_delist_proposal, is_some, is_transferring,
}

module _ {m : DecMath} (s : CoinSets m) (k : ModuleBank s) (c : CoinMath) (params : DexParams) where
  open c use {coin_sub, coin_is_lt}

  -- The changes of ownership that wait to be confirmed
  abbrev Confirms : Type 0
  Confirms = String → Option ConfirmOwnership

  add_withdraw-confirms :
      (ctx : Context) (to : String) (amount : Coin) (st st' : DexState s k)
      → add_withdraw s k c params ctx to amount st ≡ ok st'
      → st'.confirms ≡ st.confirms
  unfolding add_withdraw
  add_withdraw-confirms ctx to amount st st' h =
      let time = ctx.time +ℤ params.withdraw_period in
      let (info, _, h1) =
        >>=-eq-ok (joined_withdraw s k c params to amount time (get to st.withdraws)) _ h in
      ap (λ (x : DexState s k). x.confirms) (sym (ok-eq h1))

  withdraw-confirms :
      (ctx : Context) (product to : String) (amount : Coin) (st st' : DexState s k)
      → withdraw s k c params ctx product to amount st ≡ ok st'
      → st'.confirms ≡ st.confirms
  unfolding withdraw
  withdraw-confirms ctx product to amount st st' h =
      let (pair, _, h1) = or_fail->>=-eq-ok (get_token_pair s k c params product st) _ _ h in
      let (_, h2) = fail_if->>-eq-ok (not (string_eq pair.owner to)) _ _ h1 in
      let (_, h3) = fail_if->>-eq-ok (not (string_eq amount.denom params.bond_denom)) _ _ h2 in
      let (short, _, h4) = or_fail->>=-eq-ok (coin_is_lt pair.deposits amount) _ _ h3 in
      let (_, h5) = fail_if->>-eq-ok short _ _ h4 in
      let (st1, kept, h6) = >>=-eq-ok (add_withdraw s k c params ctx to amount st) _ h5 in
      let (deposits, _, h7) = or_fail->>=-eq-ok (coin_sub pair.deposits amount) _ _ h6 in
      ap (λ (x : DexState s k). x.confirms) (sym (ok-eq h7))
      ∙ add_withdraw-confirms ctx to amount st st1 kept

  withdraw_deposits-confirms :
      (ctx : Context) (product to : String) (deposits : Coin) (st st' : DexState s k)
      → withdraw_deposits s k c params ctx product to deposits st ≡ ok st'
      → st'.confirms ≡ st.confirms
  unfolding withdraw_deposits
  withdraw_deposits-confirms ctx product to deposits st st' h =
      elim (Bool-cases (ltb_ℤ (pos 0) deposits.amount)) [
        | inl t ↦ withdraw-confirms ctx product to deposits st st' (
            failing-eq-ok Types.withdraw_failed (withdraw s k c params ctx product to deposits st)
              (rw t at h))
        | inr t ↦ ap (λ (x : DexState s k). x.confirms) (sym (ok-eq (rw t at h)))
      ]

  -- What a transfer that succeeds leaves to be confirmed.
  abbrev offered : Context → MsgTransferOwnership → ConfirmOwnership
  offered ctx msg = record {
    product = msg.product;
    from_address = msg.from_address;
    to_address = msg.to_address;
    expire = ctx.time +ℤ params.ownership_confirm_window;
  }

  transfer-confirms :
      (ctx : Context) (msg : MsgTransferOwnership) (st st' : DexState s k)
      → handle_msg_transfer_ownership s k c params ctx msg st ≡ ok st'
      → st'.confirms msg.product ≡ some (offered ctx msg)
  unfolding handle_msg_transfer_ownership
  transfer-confirms ctx msg st st' h =
      let (pair, _, h1) = or_fail->>=-eq-ok (get_token_pair s k c params msg.product st) _ _ h in
      let (_, h2) = fail_if->>-eq-ok (not (string_eq pair.owner msg.from_address)) _ _ h1 in
      let (_, h3) = fail_if->>-eq-ok (not (is_some (st.operators msg.to_address))) _ _ h2 in
      let (_, h4) = fail_if->>-eq-ok (is_transferring ctx.time (st.confirms msg.product)) _ _ h3 in
      let (st1, _, h5) =
        >>=-eq-ok (withdraw_deposits s k c params ctx msg.product msg.from_address pair.deposits st)
          _ h4 in
      let (st2, _, h6) =
        >>=-eq-ok
          (charge_fee s k c params msg.from_address params.transfer_ownership_fee
            Types.insufficient_fee_coins st1)
          _ h5 in
      ap (λ (x : DexState s k). x.confirms msg.product) (sym (ok-eq h6))
      ∙ ap (λ b. if b then some (offered ctx msg) else st2.confirms msg.product)
          (string_eq_refl msg.product)

  delist-confirms :
      (ctx : Context) (base quote : String) (st st' : DexState s k)
      → handle_delist_proposal s k c params ctx base quote st ≡ ok st'
      → st'.confirms ≡ st.confirms
  unfolding handle_delist_proposal delete_token_pair_by_name
  delist-confirms ctx base quote st st' h =
      let key = pair_key base quote in
      let (pair, _, h1) = or_fail->>=-eq-ok (get_token_pair s k c params key st) _ _ h in
      let (_, h2) = fail_if->>-eq-ok (ctx.is_token_pair_locked key) _ _ h1 in
      let (st1, drawn, h3) =
        >>=-eq-ok (withdraw_deposits s k c params ctx (pair_name pair) pair.owner pair.deposits st)
          _ h2 in
      ap (λ (x : DexState s k). x.confirms) (sym (ok-eq h3))
      ∙ withdraw_deposits-confirms ctx (pair_name pair) pair.owner pair.deposits st st1 drawn

  charge_fee-confirms :
      (owner : String) (fee : Coin) (stop : DexError) (st st' : DexState s k)
      → charge_fee s k c params owner fee stop st ≡ ok st'
      → st'.confirms ≡ st.confirms
  unfolding charge_fee
  charge_fee-confirms owner fee stop st st' h =
      let (bank, _, h1) =
        or_fail->>=-eq-ok
          (k.account_to_module owner params.fee_collector (to_coins s k c params fee) st.bank) _ _
          h in
      ap (λ (x : DexState s k). x.confirms) (sym (ok-eq h1))

  written : {A : Type 0} (f : String → A) (key : String) (v : A) → update f key v key ≡ v
  written f key v = ap (λ b. if b then v else f key) (string_eq_refl key)

  -- The pair that is listed, and what it leaves to be confirmed
  list-lists :
      (ctx : Context) (msg : MsgList) (st st' : DexState s k)
      → handle_msg_list s k c params ctx msg st ≡ ok st'
      → (st'.confirms ≡ st.confirms)
        × ((pair : TokenPair) × (get (pair_key msg.list_asset msg.quote_asset) st'.pairs
              ≡ some pair)
            × (pair.owner ≡ msg.owner))
        × (st'.user_pairs msg.owner (pair_key msg.list_asset msg.quote_asset) ≡ true)
  unfolding handle_msg_list save_token_pair new_token_pair
  list-lists ctx msg st st' h =
      let key = pair_key msg.list_asset msg.quote_asset in
      let (_, h1) =
        fail_if->>-eq-ok
          (not (ctx.token_exist msg.list_asset) || not (ctx.token_exist msg.quote_asset)) _ _ h in
      let (_, h2) = fail_if->>-eq-ok (not (is_some (st.operators msg.owner))) _ _ h1 in
      let (_, h3) =
        fail_if->>-eq-ok
          (is_some (get_token_pair s k c params key st)
            || is_some (get_token_pair s k c params (pair_key msg.quote_asset msg.list_asset) st))
          _ _ h2 in
      let (st1, charged, h4) =
        >>=-eq-ok
          (charge_fee s k c params msg.owner params.list_fee Types.insufficient_fee_coins st) _
          h3 in
      let e = ok-eq h4 in
      let new = new_token_pair s k c params ctx msg in
      let pair : TokenPair = record new {
        id = token_pair_id s k c params 0 st1.max_token_pair_id;
      } in
      (
        ap (λ (x : DexState s k). x.confirms) (sym e)
            ∙ charge_fee-confirms msg.owner params.list_fee Types.insufficient_fee_coins st st1
                charged,
        (
          pair,
          ap (λ (x : DexState s k). get key x.pairs) (sym e) ∙ get-put_self key pair st1.pairs,
          refl,
        ),
        ap (λ (x : DexState s k). x.user_pairs msg.owner key) (sym e)
            ∙ ap (λ (f : String → Bool). f key)
                (written st1.user_pairs msg.owner (update (st1.user_pairs msg.owner) key true))
            ∙ written (st1.user_pairs msg.owner) key true,
      )

  -- The index of an owner that is neither the one who gives nor, but for the pair, the one who takes.
  index_kept :
      (owner from to product : String) (user_pairs : String → String → Bool)
      → string_eq from owner ≡ false
      → user_pairs owner product ≡ true
      → update_user_pair s k c params to product true
          (update_user_pair s k c params from product false user_pairs)
          owner
          product
        ≡ true
  index_kept owner from to product user_pairs ne h = elim (Bool-cases (string_eq to owner)) [
    | inl t ↦
        rw t (written (update_user_pair s k c params from product false user_pairs to) product true)
    | inr t ↦ rw t (rw ne h)
  ]

  -- After the owner of a pair has offered it to another account, the pair has been delisted, and a
  -- third account that is not the one which offered it has listed it anew, all of them with success,
  -- the account that it was offered to can still confirm, as long as the window of the offer has not
  -- passed: the message succeeds and the new pair belongs to that account. The index of owners still
  -- counts the pair as the third account's.
  pub confirm-delist :
      (offer_ctx delist_ctx list_ctx confirm_ctx : Context) (offer : MsgTransferOwnership)
      (relist : MsgList) (st st1 st2 st3 : DexState s k)
      → offer.product ≡ pair_key relist.list_asset relist.quote_asset
      → after confirm_ctx.time (offer_ctx.time +ℤ params.ownership_confirm_window) ≡ false
      → string_eq offer.from_address relist.owner ≡ false
      → handle_msg_transfer_ownership s k c params offer_ctx offer st ≡ ok st1
      → handle_delist_proposal s k c params delist_ctx relist.list_asset relist.quote_asset st1
        ≡ ok st2
      → handle_msg_list s k c params list_ctx relist st2 ≡ ok st3
      → (st4 : DexState s k) × (handle_msg_confirm_ownership s k c params confirm_ctx
            (record { product = offer.product; address = offer.to_address })
            st3
          ≡ ok st4)
        × ((pair : TokenPair) × (get offer.product st4.pairs ≡ some pair)
            × (pair.owner ≡ offer.to_address))
        × (st4.user_pairs relist.owner offer.product ≡ true)
  unfolding handle_msg_confirm_ownership take_ownership update_user_token_pair
  confirm-delist offer_ctx delist_ctx list_ctx confirm_ctx offer relist st st1 st2 st3 same early ne
        h1 h2 h3 =
      let msg : MsgConfirmOwnership = record {
        product = offer.product;
        address = offer.to_address;
      } in
      let confirm = offered offer_ctx offer in
      let (confirms, (pair, found, _), index) = list-lists list_ctx relist st2 st3 h3 in
      let waits : st3.confirms offer.product ≡ some confirm =
        ap (λ (f : Confirms). f offer.product)
          (confirms ∙ delist-confirms delist_ctx relist.list_asset relist.quote_asset st1 st2 h2)
        ∙ transfer-confirms offer_ctx offer st st1 h1 in
      let found' : get offer.product st3.pairs ≡ some pair =
        ap (λ a. get a st3.pairs) same ∙ found in
      (
        take_ownership s k c params msg confirm pair st3,
        rw waits (rw early (rw (string_eq_refl offer.to_address) (rw found'))),
        (
          record pair { owner = offer.to_address },
          get-put_self offer.product (record pair { owner = offer.to_address }) st3.pairs,
          refl,
        ),
        index_kept relist.owner offer.from_address offer.to_address offer.product st3.user_pairs ne
            (ap (st3.user_pairs relist.owner) same ∙ index),
      )
