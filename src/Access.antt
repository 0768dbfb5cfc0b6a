-- ===== src/Access.antt =====
-- Who a request acts for: the tokens of internal/httpapi/session.go and claimtoken.go, and the gates of
-- internal/httpapi/auth.go that read them.
pub mod Tokens
pub mod Signed
pub mod Gate
