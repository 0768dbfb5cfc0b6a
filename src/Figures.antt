-- ===== src/Figures.antt =====
-- What the owner's screens count: internal/store/settlement.go and home.go with admin_settlement.go and
-- admin_home.go of internal/httpapi. Settlement: the figures of a period. Split and Sums: what the
-- figures of the days add up to. Report: the answers to the browser and the file for the accountant.
-- Home: the counts of the home screen. Actions: its list of things to do. First: which comes first.
pub mod Settlement
pub mod Split
pub mod Sums
pub mod Report
pub mod Home
pub mod Actions
pub mod First
