-- ===== src/Intake.antt =====
-- The intake of a customer's claim: internal/httpapi/public.go, internal/media/media.go and the codes
-- of internal/payout/banks.go. `Photos` has the checks and the storage of photos, `Form` what a
-- customer sends, `Handler` the handler that stores the claim, `Accepted` what it stores.
pub mod Photos
pub mod Form
pub mod Handler
pub mod Accepted
