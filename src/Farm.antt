-- ===== src/Farm.antt =====
-- x/farm: pools where accounts lock a token and are yielded others.
pub mod Types
pub mod Yield
pub mod Rewards
pub mod Handler
pub mod Allocation
pub mod Books
pub mod Chain
pub mod Keys
pub mod Earnings
