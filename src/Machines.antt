-- ===== src/Machines.antt =====
-- The machines of a shop and the codes that are printed for them: internal/store/machine.go and
-- internal/httpapi/admin_machines.go.
pub mod Table
pub mod Codes
