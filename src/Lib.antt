-- ===== src/Lib.antt =====
-- The order book, the periodic auction, the automated market maker, the farm, the locks on tokens and
-- the trading pairs of the exchange chain.
--
-- The chain is a set of modules over cosmos-sdk. Orders enter the depth book of their product
-- (x/order/types/depth_book.go); at the end of a block the periodic auction reads the book and finds
-- the price and the volume of the product (x/order/match/periodicauction/match.go). The swap module
-- (x/ammswap) keeps pools of two tokens in one module account and trades against them. The farm module
-- (x/farm) takes tokens, pool tokens of the swap module among them, locks them in pools and pays
-- rewards by periods; at the start of a block it gives the minted tokens to the pools of a
-- whitelist by their value, which it asks of the swap module. All reckon in sdk.Dec; the swap and
-- farm modules share MulAndQuo (x/common/util.go). The dex module (x/dex) keeps the trading pairs, what
-- their owners deposit for them and the withdrawals, which it pays out at the end of a block when their
-- time has come; governance delists a pair. The gov module (x/gov) tallies votes on proposals by the
-- shares that validators and delegators have in staking.
--
-- Files and code:
--   Order/Types     x/order/types/order.go: the order's fields, its side and status
--   Order/Book      x/order/types/depth_book.go: InsertOrder, RemoveOrder, Sub, RemoveIfEmpty.
--                   Book/Sorted has the order of prices, Book/Insert and Book/Remove the operations
--                   as scans, Book/Laws and Book/Removal what they do to the quantities
--   Order/Auction   match.go, lines 1-159: preMatchProcessing, execRule0 to execRule3,
--                   bestPriceFromRefPrice, periodicAuctionMatchPrice. Auction/Curves has demand and
--                   supply, Auction/Volume the largest volume, Auction/Select and Auction/Offset the
--                   lists of indexes, Auction/Price the price
--   Order/Fill      the methods of an order in x/order/types/order.go, and fillOrderByKey, fillOrder
--                   and balanceAccount of x/order/match/periodicauction/fill.go. Fill/Laws has what
--                   a fill comes to, Fill/Sound the state of one order. Fill/Sides has fillBuyOrders
--                   of that file and setOrderIDs of x/order/keeper/disk_cache.go, Fill/Sides/Queue and
--                   Fill/Sides/Backed the agreement of the book with the queues. Fill/Charge has
--                   chargeFee, GetDealFee and the accounts, which fill the interface FillKeeper
--   Order/Cache     x/order/keeper/disk_cache.go. Cache/Views has the books and the queues as functions,
--                   Cache/Open the list of open orders, Cache/Refines and Cache/Runs the two together
--   Order/Best      GetBestBidAndAsk of x/order/keeper/keeper.go
--   Order/Keeper    x/order/keeper/order.go and fee.go: PlaceOrder, CancelOrder and ExpireOrder with their
--                   fees, over Token and Order/Cache. Keeper/Booked follows what accounts have locked
--                   (invariant.go), Keeper/Fees what an order pays
--   Swap            x/ammswap/types/swap.go and the prices of x/ammswap/keeper/keeper.go;
--                   Swap/Price has the price's theorems
--   Swap/Handler    x/ammswap/handler.go, x/ammswap/types/msgs.go and the calls into the keeper.
--                   Handler/Pools, /Trades, /Liquidity and /Create have the handlers' theorems
--   Swap/Redeem     SplitPoolToken and the checks of names of types/swap.go, GetRedeemableAssets of
--                   keeper/keeper.go
--   Farm/Types      the types and the store of x/farm; Farm/Keys the keys that an iterator reads
--   Farm/Yield      CalculateAmountYieldedBetween of x/farm/keeper/calc.go; Yield/Laws its accounts
--   Farm/Rewards    the other functions of calc.go. Rewards/Moves has what they do to the store and the
--                   bank, Rewards/Shares the shares of one period
--   Farm/Handler    x/farm/handler.go, handler_lock.go and handler_pool.go. Handler/Settled and
--                   Handler/Locks have the handlers as changes of one pool's books, Handler/Frozen the
--                   keys that handleMsgDestroyPool deletes
--   Farm/Allocation x/farm/abci.go and the whitelist: keeper/farm_pool.go, whitelist.go, proposal.go,
--                   proposal_handler.go. Allocation/Laws, /Backed and /Block follow BeginBlocker
--   Farm/Books      the invariants of keeper/invariants.go for all pools; Books/Steps and Books/Pools
--                   the handlers as writes of one pool
--   Farm/Chain      the module as a step relation
--   Farm/Earnings   GetEarnings of keeper/earnings.go
--   Token           LockCoins, UnlockCoins and BalanceAccount of x/token/keeper.go, with which orders
--                   lock and trade coins; Token/Backed and Token/Account hold the module's account
--                   against the locked coins
--   Dex/Types       x/dex/types: pairs, withdrawals, offers of ownership, operators and messages
--   Dex/Keeper      x/dex/keeper/keeper.go: the stores, Deposit, Withdraw and CompleteWithdraw
--   Dex/Handler     x/dex/handler.go, endblocker.go, proposal_handler.go and keeper/proposal.go
--   Dex/Keys, Dex/Sound  the keys of withdrawals by time, and what holds of the stores
--   Dex/Backed      keeper/invariant.go; Backed/Withdraw, Dex/Due and Dex/Chain follow it through the
--                   operations, the end of a block and a sequence of events. Due/Paid has which
--                   withdrawals a block completes
--   Dex/Ownership   an offer of ownership through a delisting; Dex/Rank has IsGT of types/pair.go
--   Gov/Tally, Gov/Outcome  x/gov/keeper/tally.go: the count of the votes, and the status that it leads
--                   to. Gov/Counts has the numbers against the power, Gov/Decides the divisions
--   Common          MulAndQuo
--   Sdk             what is taken from cosmos-sdk, as records of operations and their laws
--   Base            lists, texts, integers, results, stores and binary search
--   Tests           runs at concrete values
--
-- An sdk.Dec is the integer number of its smallest units. Sums, differences and comparisons are those
-- of the integers; the SDK's limit of 315 bits, beyond which it panics, is left out. Products and
-- quotients are the parameter DecMath: only the truncating ones on numbers that are not negative have
-- a law. Coins and the bank are the parameters CoinMath and SupplyKeeper. A panic of the SDK on coins
-- is the error `panic` of the handler: like any other error it leaves the state unchanged, since the
-- transaction is dropped. The search of Go's sort.Search recurses on fuel, the length of the range,
-- which the interval never outlasts.
--
-- A handler maps a message and a state to the state after it or an error. The state of the swap
-- module is its pairs and what it reads of the tokens, the bank, the fee rate and the time. The state
-- of the farm module is its store, the bank, the height and the parameters; a panic of a handler is
-- the error `panic`. A block's start and the proposals are steps beside the messages. An int64 height
-- and a uint16 count are numbers without a bound, a uint64 period wraps around. Sets of coins are
-- the parameter CoinSets, the accounts of modules the parameter ModuleBank, the swap module's state as
-- the farm reads it the parameter SwapView, and the names that the iterator over the whitelist gives
-- are an argument of begin_blocker. The dex module's stores that it iterates over are lists of entries
-- in which a key has one entry; a time is a number of its units. What it asks of the block, of x/token
-- and of x/order is the record Context. Ids of orders are printed and read by
-- the parameter Formats; strings.Split is a function of the model, and an index out of range, a quotient
-- by zero in an order's fill and a difference of coins below zero are panics. The check of a
-- denomination's text in NewDecCoinFromDec is left out. Where
-- the order keeper logs an error of an unlock and goes on, so does the model. What staking knows of delegators and validators is the record Staking.
--
-- Not modelled: events, logs, queries, codecs, the store's keys, notices to observers, and the
-- checks of ValidateBasic, which come before the handlers; the fill of the asks and the loops over
-- products and blocks around the fills, of which what a block reads of prices and owners is the record Market; the loop that expires the orders of a block
-- and the messages of x/order, with the fee details and the texts that an order keeps;
-- MsgSetWhite and the parameters of proposals in x/farm; the issue and transfer of tokens in
-- x/token; the checks of a proposal to delist; the deposits, queues and messages of
-- x/gov; and the modules staking, distribution, slashing, evidence, evm, params,
-- genutil, backend and stream.
pub mod Base
pub mod Sdk
pub mod Common
pub mod Order
pub mod Swap
pub mod Farm
pub mod Gov
pub mod Token
pub mod Dex
pub mod Tests
