-- ===== src/Farm/Chain.antt =====
-- The farm module as a state machine: the messages of x/farm/handler.go, the proposals and the start
-- of a block, in any order.
use Prim.Native.String.{String}
use text.Mathlib.Text.{◌==◌ as string_eq}
use okexchain.Base.{
  distinct, occurs, ◌≡◌, subst, ℤ, pos, leb_ℤ, +ℤ_zero, true, false, List, ok, or_fail->>=-eq-ok,
  >>=-eq-ok, fail_if->>-eq-ok, ok-eq, not,
}
use okexchain.Sdk.{DecMath, CoinMath}
use okexchain.Sdk.Sets.{CoinSets, ModuleBank}
use okexchain.Swap.Redeem.{SwapView}
use okexchain.Farm.Types.{
  MsgLock, MsgClaim, MsgProvide, MsgCreatePool, MsgDestroyPool, State, farm_account,
  yield_farming_account,
}
use okexchain.Farm.Handler.{
  only_info, handle_msg_lock, handle_msg_unlock, handle_msg_claim, handle_msg_provide,
  handle_msg_create_pool, handle_msg_destroy_pool,
}
use okexchain.Farm.Handler.Settled.{handle_msg_claim-Settled}
use okexchain.Farm.Handler.Locks.{handle_msg_lock-Settled, handle_msg_unlock-Settled}
use okexchain.Farm.Allocation.{
  ManageWhiteListProposal, handle_manage_white_list_proposal, begin_blocker,
  check_msg_manage_white_list_proposal,
}
use okexchain.Farm.Allocation.Backed.{all_occur}
use okexchain.Farm.Allocation.Block.{begin_blocker-Backed}
use okexchain.Farm.Books.{fits, Backed, Writes, Writes-Backed}
use okexchain.Farm.Books.Steps.{Settled-Writes, fund-Writes}
use okexchain.Farm.Books.Pools.{handle_msg_create_pool-Writes, handle_msg_destroy_pool-Writes}

module _ {m : DecMath} (s : CoinSets m) (k : ModuleBank s) (c : CoinMath) (v : SwapView) where
  open k use {balance}

  -- One step of the module. All pools have names out of `names`; amounts that ValidateBasic and the
  -- checks of the parameters keep from being negative are not; the fees go to a third account.
  pub data Step (bond : String) (names : List String) : State s k → State s k → Type 0 where
    lock :
        {st st' : State s k} (msg : MsgLock)
        → occurs msg.pool_name names ≡ true
        → handle_msg_lock s k c msg st ≡ ok st'
        → Step bond names st st'
    unlock :
        {st st' : State s k} (msg : MsgLock)
        → occurs msg.pool_name names ≡ true
        → handle_msg_unlock s k c msg st ≡ ok st'
        → Step bond names st st'
    claim :
        {st st' : State s k} (msg : MsgClaim)
        → occurs msg.pool_name names ≡ true
        → handle_msg_claim s k c msg st ≡ ok st'
        → Step bond names st st'
    provide :
        {st st' : State s k} (msg : MsgProvide)
        → occurs msg.pool_name names ≡ true
        → leb_ℤ (pos 0) msg.amount.amount ≡ true
        → handle_msg_provide s k c msg st ≡ ok st'
        → Step bond names st st'
    create :
        {st st' : State s k} (msg : MsgCreatePool)
        → occurs msg.pool_name names ≡ true
        → string_eq st.fee_collector farm_account ≡ false
        → string_eq st.fee_collector yield_farming_account ≡ false
        → leb_ℤ (pos 0) st.params.create_pool_deposit.amount ≡ true
        → handle_msg_create_pool s k c msg st ≡ ok st'
        → Step bond names st st'
    destroy :
        {st st' : State s k} (msg : MsgDestroyPool)
        → occurs msg.pool_name names ≡ true
        → handle_msg_destroy_pool s k c msg st ≡ ok st'
        → Step bond names st st'
    proposal :
        {st st' : State s k} (content : ManageWhiteListProposal)
        → handle_manage_white_list_proposal s k v content st ≡ ok st'
        → Step bond names st st'
    begin_block :
        {st st' : State s k} (height : ℤ) (iterated : List String)
        → distinct iterated ≡ true
        → all_occur iterated names ≡ true
        → begin_blocker s k v bond iterated (record st { height = height }) ≡ ok st'
        → Step bond names st st'

  pub data Reaches (bond : String) (names : List String) : State s k → State s k → Type 0 where
    start : {st : State s k} → Reaches bond names st st
    step :
        {st st' st'' : State s k}
        → Reaches bond names st st'
        → Step bond names st' st''
        → Reaches bond names st st''

  module _ (d : String) where
    -- The steps that write one pool.
    write-Backed :
        (names : List String) (name : String) (st st' : State s k)
        → distinct names ≡ true
        → occurs name names ≡ true
        → Backed s k d names (pos 0) st
        → Writes s k d name (pos 0) st st'
        → Backed s k d names (pos 0) st'
    write-Backed names name st st' nd mem bk w =
        subst (λ n. Backed s k d names n st') (+ℤ_zero (pos 0))
          (Writes-Backed s k d names name (pos 0) (pos 0) st st' nd mem bk w)

    handle_msg_provide-Writes :
        (msg : MsgProvide) (st st' : State s k)
        → fits s k d msg.pool_name (st.pools msg.pool_name) ≡ true
        → leb_ℤ (pos 0) msg.amount.amount ≡ true
        → handle_msg_provide s k c msg st ≡ ok st'
        → Writes s k d msg.pool_name (pos 0) st st'
    unfolding handle_msg_provide
    handle_msg_provide-Writes msg st st' fit sign h =
        let (_, h1) = fail_if->>-eq-ok (leb_ℤ msg.start_height_to_yield st.height) _ _ h in
        let (pool, e, h2) = or_fail->>=-eq-ok (st.pools msg.pool_name) _ _ h1 in
        let (_, h3) = fail_if->>-eq-ok (not (string_eq pool.owner msg.address)) _ _ h2 in
        let (info, _, h4) = >>=-eq-ok (only_info pool.yielded_token_infos) _ h3 in
        let (_, h5) =
          fail_if->>-eq-ok (not (string_eq info.remaining_amount.denom msg.amount.denom)) _ _ h4 in
        fund-Writes s k c d msg.pool_name msg pool st st' fit e sign h5

    proposal-Backed :
        (names : List String) (content : ManageWhiteListProposal) (st st' : State s k)
        → Backed s k d names (pos 0) st
        → handle_manage_white_list_proposal s k v content st ≡ ok st'
        → Backed s k d names (pos 0) st'
    unfolding handle_manage_white_list_proposal
    proposal-Backed names content st st' bk h =
        let (_, _, h1) = >>=-eq-ok (check_msg_manage_white_list_proposal s k v content st) _ h in
        subst (Backed s k d names (pos 0)) (ok-eq h1) bk

    -- Every step keeps the books.
    pub step-Backed :
        (bond : String) (names : List String) (st st' : State s k)
        → distinct names ≡ true
        → Backed s k d names (pos 0) st
        → Step bond names st st'
        → Backed s k d names (pos 0) st'
    step-Backed bond names st st' nd bk (lock msg mem h) =
        let (pool, e, w) = handle_msg_lock-Settled s k c d msg st st' h in
        write-Backed names msg.pool_name st st' nd mem bk
          (Settled-Writes s k c d msg.pool_name pool st st' (bk.0 msg.pool_name) e w)
    step-Backed bond names st st' nd bk (unlock msg mem h) =
        let (pool, e, w) = handle_msg_unlock-Settled s k c d msg st st' h in
        write-Backed names msg.pool_name st st' nd mem bk
          (Settled-Writes s k c d msg.pool_name pool st st' (bk.0 msg.pool_name) e w)
    step-Backed bond names st st' nd bk (claim msg mem h) =
        let (pool, e, w) = handle_msg_claim-Settled s k c d msg st st' h in
        write-Backed names msg.pool_name st st' nd mem bk
          (Settled-Writes s k c d msg.pool_name pool st st' (bk.0 msg.pool_name) e w)
    step-Backed bond names st st' nd bk (provide msg mem sign h) =
        write-Backed names msg.pool_name st st' nd mem bk
          (handle_msg_provide-Writes msg st st' (bk.0 msg.pool_name) sign h)
    step-Backed bond names st st' nd bk (create msg mem f g sign h) =
        write-Backed names msg.pool_name st st' nd mem bk
          (handle_msg_create_pool-Writes s k c d msg st st' f g sign h)
    step-Backed bond names st st' nd bk (destroy msg mem h) =
        write-Backed names msg.pool_name st st' nd mem bk
          (handle_msg_destroy_pool-Writes s k c d msg st st' (bk.0 msg.pool_name) h)
    step-Backed bond names st st' nd bk (proposal content h) =
        proposal-Backed names content st st' bk h
    step-Backed bond names st st' nd bk (begin_block height iterated nd' sub h) =
        begin_blocker-Backed s k v d names iterated bond (record st { height = height }) st' nd nd'
          sub bk h

    -- Let the names of all pools be out of a list of distinct names, and let the books of the pools
    -- be true of a state: the yield farming account holds, of each denomination, the accumulated
    -- rewards and the amounts still to be yielded of all pools together; the farm account holds
    -- the locked values and the deposits; each pool stands under its own name and owes nothing
    -- negative. Then they are true of every state that messages, proposals and starts of blocks
    -- lead to, in any order.
    pub reaches-Backed :
        (bond : String) (names : List String) (st st' : State s k)
        → distinct names ≡ true
        → Backed s k d names (pos 0) st
        → Reaches bond names st st'
        → Backed s k d names (pos 0) st'
    reaches-Backed bond names st st' nd bk start = bk
    reaches-Backed bond names st st' nd bk (step {st' = mid} r last) =
        step-Backed bond names mid st' nd (reaches-Backed bond names st mid nd bk r) last
