-- ===== src/Worker.antt =====
-- The jobs that run beside the server: internal/worker/worker.go.
pub mod Alerts
pub mod Once
pub mod Digest
pub mod Purge
pub mod Batch
pub mod Expired
