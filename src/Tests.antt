-- ===== src/Tests.antt =====
-- Runs of the models at concrete inputs, and the theorems at inputs that meet their hypotheses.
mod Claims
mod Requests
mod Stores
mod Accounts
mod Services
mod Pages
mod Figures
