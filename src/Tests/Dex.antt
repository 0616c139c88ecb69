-- ===== src/Tests/Dex.antt =====
-- A trading pair that is listed, deposited for and withdrawn from, and one that changes hands.
use Prim.Native.String.{String}
use okexchain.Base.{
  ◌≡◌, ◌↔◌, refl, sym, subst, arith, ℤ, pos, ◌+ℤ◌, ◌-ℤ◌, ◌≤ℤ◌, true, false, List, [], ◌∷◌, none,
  some, Result, ok, err, get, put, delete, total,
}
use okexchain.Sdk.{coin}
use okexchain.Sdk.Sets.{PaysWhatItHolds}
use okexchain.Dex.Types.{
  DexParams, Context, DexState, DexError, TokenPair, MsgList, MsgTransferOwnership,
}
use okexchain.Dex.Keeper.{
  deposit, withdraw, add_withdraw, save_token_pair, token_pair_id, delete_token_pair_by_name,
}
use okexchain.Dex.Keys.{has_withdraw_time}
use okexchain.Dex.Handler.{
  charge_fee, new_token_pair, handle_msg_list, handle_msg_deposit, handle_msg_withdraw,
  withdraw_deposits, handle_msg_transfer_ownership, handle_msg_confirm_ownership,
  handle_msg_create_operator, handle_delist_proposal, end_blocker,
}
use okexchain.Dex.Backed.{IsSound, surplus}
use okexchain.Dex.Chain
use okexchain.Dex.Chain.{Event, validate_amount, apply, run}
use okexchain.Dex.Chain.Sequences.{run-Keeps}
use okexchain.Dex.Due.Paid.{still_waiting, end_blocker-withdraws}
use okexchain.Dex.Ownership.{confirm-delist}
use okexchain.Dex.Rank.{is_gt, AreCrossed, is_gt-both}
use okexchain.Tests.Setting.{coin_math, add_coins, sub_coins, is_lt_coins}
use okexchain.Tests.Farm.{coin_sets, module_bank}

abbrev params : DexParams
params = record {
  list_fee = coin "okt" (pos 3);
  transfer_ownership_fee = coin "okt" (pos 2);
  register_operator_fee = coin "okt" (pos 1);
  withdraw_period = pos 5;
  ownership_confirm_window = pos 100;
  bond_denom = "okt";
  fee_collector = "fee_collector";
}

abbrev at_time : ℤ → Context
at_time time = record {
  time = time;
  height = time;
  tx_hash = "hash";
  token_exist = λ symbol. true;
  is_token_pair_locked = λ product. false;
  is_valid = λ amount. true;
}

abbrev Store : Type 0
Store = DexState coin_sets module_bank

unfoldable start : Store
unfolding coin_sets module_bank
start = record {
  pairs = [];
  user_pairs = λ owner product. false;
  withdraws = [];
  withdraw_times = [];
  confirms = λ product. none;
  operators = λ addr. none;
  max_token_pair_id = 0;
  bank = λ account denom. pos 0;
}

start-IsSound : IsSound coin_sets module_bank coin_math params start
unfolding start get has_withdraw_time
start-IsSound = record {
  pairs = record { one_each = tt; named = λ j v e. cc; not_negative = λ j v e. cc };
  withdraws = record {
    one_each = tt;
    owned = λ j v e. cc;
    not_negative = λ j v e. cc;
    timed = λ j v e. cc;
    keyed = λ t a e. cc;
  };
}

abbrev register : String → Event
register owner =
    Chain.create_operator (at_time (pos 1))
      (record { owner = owner; website = "site"; handling_fee_address = owner })

abbrev listing : String → MsgList
listing owner = record {
  owner = owner;
  list_asset = "btc";
  quote_asset = "okt";
  init_price = pos 7;
}

abbrev events : List Event
events =
    register "ann"
    ∷ register "bob"
    ∷ register "cid"
    ∷ Chain.list (at_time (pos 2)) (listing "ann")
    ∷ Chain.deposit (at_time (pos 3))
        (record { product = "btc_okt"; amount = coin "okt" (pos 9); depositor = "ann" })
    ∷ Chain.withdraw (at_time (pos 10))
        (record { product = "btc_okt"; amount = coin "okt" (pos 4); depositor = "ann" })
    ∷ []

abbrev withdrawn : Store
withdrawn = run coin_sets module_bank coin_math params events start

run-Keeps_example :
    IsSound coin_sets module_bank coin_math params withdrawn
    × ((d : String)
        → surplus coin_sets module_bank coin_math params d withdrawn
          ≡ surplus coin_sets module_bank coin_math params d start)
run-Keeps_example = run-Keeps coin_sets module_bank coin_math params refl events start start-IsSound

-- The withdrawal waits for its time.
waits_until :
    get "ann" withdrawn.withdraws
    ≡ some (record { owner = "ann"; deposits = coin "okt" (pos 4); complete_time = pos 15 })
unfolding run apply start get handle_msg_create_operator charge_fee coin_sets module_bank
    handle_msg_list save_token_pair token_pair_id put validate_amount handle_msg_deposit deposit
    coin_math add_coins sub_coins is_lt_coins handle_msg_withdraw withdraw add_withdraw
    new_token_pair ◌+ℤ◌ ◌-ℤ◌
waits_until = refl

pays : PaysWhatItHolds coin_sets module_bank
unfolding module_bank
pays a u x bank h = (_, refl)

start_surplus : (d : String) → pos 0 ≤ℤ surplus coin_sets module_bank coin_math params d start
unfolding start module_bank total ◌-ℤ◌
start_surplus d = omega arith

end_blocker-withdraws_example :
    get "ann" (end_blocker coin_sets module_bank coin_math params (pos 20) withdrawn).withdraws
    ≡ still_waiting (pos 20) (get "ann" withdrawn.withdraws)
end_blocker-withdraws_example =
    end_blocker-withdraws coin_sets module_bank coin_math params pays (pos 20) "ann" withdrawn
      run-Keeps_example.0
      (λ d. subst (λ n. pos 0 ≤ℤ n) (sym (run-Keeps_example.1 d)) (start_surplus d))

abbrev pair_of : String → String → TokenPair
pair_of base quote = record {
  base_asset_symbol = base;
  quote_asset_symbol = quote;
  init_price = pos 7;
  max_price_digit = pos 4;
  max_quantity_digit = pos 4;
  min_quantity = pos 1;
  id = 1;
  delisting = false;
  owner = "ann";
  deposits = coin "okt" (pos 0);
  block_height = pos 3;
}

is_gt-both_example :
    ((is_gt coin_math (pair_of "btc" "usd") (pair_of "eth" "okt") ≡ some true)
      × (is_gt coin_math (pair_of "eth" "okt") (pair_of "btc" "usd") ≡ some true))
    ↔ ((pos 0 ≡ pos 0) × (pos 3 ≡ pos 3) × AreCrossed (pair_of "btc" "usd") (pair_of "eth" "okt"))
is_gt-both_example = is_gt-both coin_math (pair_of "btc" "usd") (pair_of "eth" "okt") refl

abbrev outcome_of : Result DexError Store → Store
outcome_of (ok st) = st
outcome_of (err e) = start

abbrev listed : Store
listed =
    run coin_sets module_bank coin_math params
      (register "ann"
        ∷ register "bob"
        ∷ register "cid"
        ∷ Chain.list (at_time (pos 2)) (listing "ann")
        ∷ [])
      start

abbrev offer : MsgTransferOwnership
offer = record { from_address = "ann"; to_address = "bob"; product = "btc_okt" }

abbrev offered_store : Store
offered_store = outcome_of (
    handle_msg_transfer_ownership coin_sets module_bank coin_math params (at_time (pos 4)) offer
      listed)

abbrev delisted : Store
delisted = outcome_of (
    handle_delist_proposal coin_sets module_bank coin_math params (at_time (pos 5)) "btc" "okt"
      offered_store)

abbrev listed_anew : Store
listed_anew = outcome_of (
    handle_msg_list coin_sets module_bank coin_math params (at_time (pos 6)) (listing "cid")
      delisted)

offered_ok :
    handle_msg_transfer_ownership coin_sets module_bank coin_math params
      (at_time (pos 4))
      offer
      listed
    ≡ ok offered_store
unfolding run apply start get handle_msg_create_operator charge_fee coin_sets module_bank
    handle_msg_list save_token_pair token_pair_id put coin_math handle_msg_transfer_ownership
    withdraw_deposits new_token_pair
offered_ok = refl

delisted_ok :
    handle_delist_proposal coin_sets module_bank coin_math params
      (at_time (pos 5))
      "btc"
      "okt"
      offered_store
    ≡ ok delisted
unfolding run apply start get handle_msg_create_operator charge_fee coin_sets module_bank
    handle_msg_list save_token_pair token_pair_id put coin_math handle_msg_transfer_ownership
    withdraw_deposits new_token_pair handle_delist_proposal
delisted_ok = refl

listed_ok :
    handle_msg_list coin_sets module_bank coin_math params
      (at_time (pos 6))
      (listing "cid")
      delisted
    ≡ ok listed_anew
unfolding run apply start get handle_msg_create_operator charge_fee coin_sets module_bank
    handle_msg_list save_token_pair token_pair_id put coin_math handle_msg_transfer_ownership
    withdraw_deposits new_token_pair handle_delist_proposal delete_token_pair_by_name delete
listed_ok = refl

confirm-delist_example :
    (st4 : Store) × (handle_msg_confirm_ownership coin_sets module_bank coin_math params
        (at_time (pos 7))
        (record { product = "btc_okt"; address = "bob" })
        listed_anew
      ≡ ok st4)
    × ((pair : TokenPair) × (get "btc_okt" st4.pairs ≡ some pair) × (pair.owner ≡ "bob"))
    × (st4.user_pairs "cid" "btc_okt" ≡ true)
unfolding ◌+ℤ◌
confirm-delist_example =
    confirm-delist coin_sets module_bank coin_math params (at_time (pos 4)) (at_time (pos 5))
      (at_time (pos 6)) (at_time (pos 7)) offer (listing "cid") listed offered_store delisted
      listed_anew refl refl refl offered_ok delisted_ok listed_ok
