-- ===== src/Market.antt =====
-- The market of dolls between stores: internal/domain/listing.go, internal/store/listing.go and the
-- handlers of internal/httpapi/admin_market.go. `Listing` has the posts and their checks, `Board` the
-- tables and their operations, `Reports` the reports and contacts, `Fairness` what
-- the reports of a post come to, `Desk` the handlers.
pub mod Listing
pub mod Board
pub mod Reports
pub mod Fairness
pub mod Desk
