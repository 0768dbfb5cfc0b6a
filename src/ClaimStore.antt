-- ===== src/ClaimStore.antt =====
-- The claims of the database: internal/store/claim.go. `Table` has the tables and the writes, `Keys`
-- what holds of idempotency keys, `Trail` the audit log as a path through the diagram of statuses.
-- `Detail` reads a claim for its page and `Viewed` says what is read and logged. `Page`, `Order` and
-- `Pages` are the list of claims (internal/store/query.go), page by page.
pub mod Table
pub mod Detail
pub mod Viewed
pub mod Keys
pub mod Trail
pub mod Order
pub mod Page
pub mod Pages
