-- ===== src/Public.antt =====
-- What a customer may read of a claim: internal/store/public_status.go and
-- internal/httpapi/public_status.go.
pub mod Status
pub mod Secrecy
