-- ===== src/Govern.antt =====
-- internal/explore/govern: the host's governance arithmetic.
pub mod Policy
pub mod Baseline
pub mod Claim
pub mod Corroborate
pub mod Decision
pub mod Ballot
pub mod Tally
pub mod Estimate
pub mod Frontier
