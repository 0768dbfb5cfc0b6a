-- ===== src/Domain.antt =====
-- The rules on single values: machine codes (internal/domain/machine.go), store types and their
-- issues (internal/domain/storetype.go, claim.go), and telephone and account numbers
-- (internal/crypto/crypto.go).
pub mod MachineCode
pub mod Issue
pub mod Phone
pub mod BizNo
pub mod Region
pub mod Characters
pub mod Trend
