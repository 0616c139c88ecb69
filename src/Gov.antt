-- ===== src/Gov.antt =====
-- x/gov: the count of the votes on a proposal, and what it decides.
pub mod Tally
pub mod Outcome
pub mod Counts
pub mod Decides
