-- ===== src/Refund.antt =====
-- The handlers that move a claim: internal/httpapi/admin_claims.go. `Handlers` has the code, `Payment`
-- what a payment is checked for, `World` the requests of many people at once, `Safety` that no claim
-- is paid twice. `Page` has the handlers of a claim's page, of its payout sheet and its photos, `Listing`
-- the one of the list, `Sheet` and `Shown` what the pages give.
pub mod Handlers
pub mod Page
pub mod Listing
pub mod Sheet
pub mod Shown
pub mod Payment
pub mod Rows
pub mod Decisions
pub mod World
pub mod Safety
