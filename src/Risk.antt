-- ===== src/Risk.antt =====
-- The risk of a new claim: internal/domain/risk.go, internal/domain/policy.go and the facts that
-- internal/store/query.go gathers. `Rules` has the rules and `Evaluate`, `Verdict` what they decide,
-- `Facts` the counts over the claims of the database. `Contacts` has the flags of contacts
-- (internal/store/contact.go) and `Blocked` what a flag does to later claims.
pub mod Rules
pub mod Verdict
pub mod Facts
pub mod Contacts
pub mod Blocked
