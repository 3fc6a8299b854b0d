-- ===== src/Tests.antt =====
-- Runs of the model on small inputs: each theorem of the results at concrete arguments.
pub mod Sample
pub mod Canonical
pub mod Agreement
pub mod Registry
pub mod Frontier
pub mod Rounds
pub mod Governance
pub mod Decisions
