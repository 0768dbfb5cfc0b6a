-- ===== src/Claim.antt =====
-- A refund claim and its life: internal/domain/claim.go. `Status` has the types, `Machine` the table
-- of transitions and `Transition`, `Lifecycle` the theorems on a single claim.
pub mod Status
pub mod Machine
pub mod Lifecycle
