-- ===== src/Payout.antt =====
-- How an owner sends a refund: internal/payout. A link opens a transfer app with the account and the
-- amount filled in; the banks and the apps are tables of the program.
pub mod Banks
pub mod Links
pub mod Shape
