-- ===== src/Dex.antt =====
-- x/dex: trading pairs, what their owners deposit for them, and who owns them.
pub mod Types
pub mod Keeper
pub mod Handler
pub mod Keys
pub mod Sound
pub mod Backed
pub mod Due
pub mod Chain
pub mod Ownership
pub mod Rank
