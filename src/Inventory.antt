-- ===== src/Inventory.antt =====
-- The ledger of dolls: internal/domain/purchase.go and internal/store/inventory.go. `Cost` has the
-- checks and the sums of a purchase, `Ledger` the tables, their operations and the stock of an item,
-- `Desk` the handlers of internal/httpapi/admin_inventory.go that write; `Counted` and `Once` say what
-- a count and a purchase leave.
pub mod Cost
pub mod Ledger
pub mod Counted
pub mod Desk
pub mod Once
