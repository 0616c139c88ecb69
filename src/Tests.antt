-- ===== src/Tests.antt =====
-- Concrete runs of the model: an order book, an auction, a pool, and the theorems at them.
pub mod Setting
mod Book
mod Auction
mod Swap
mod Fill
mod Farm
mod Gov
mod Shares
mod Frozen
mod Cache
mod Token
mod Dex
mod Keeper
