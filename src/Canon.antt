-- ===== src/Canon.antt =====
-- internal/explore/canon/canon.go: nominations, proposed clusters, the merge ledger and the gate
-- that every partition goes through. A canonicalizer call is a parameter, and so is the digest that
-- extends the hash chain (the hex SHA-256 of the head followed by the JSON of the new record).
pub mod Ledger
pub mod Build
pub mod View
pub mod Contested
pub mod Challenge
pub mod Dual
pub mod Agreement
pub mod Parsed
pub mod Splits
pub mod Presented
pub mod Disputed
pub mod Confirmation
