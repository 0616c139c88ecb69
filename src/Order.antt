-- ===== src/Order.antt =====
-- The spot exchange, x/order: orders, the depth book and the periodic auction.
pub mod Types
pub mod Book
pub mod Auction
pub mod Fill
pub mod Best
pub mod Cache
pub mod Keeper
