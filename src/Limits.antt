-- ===== src/Limits.antt =====
-- Rate limits: internal/cache/cache.go and `rateLimitPublic` of internal/httpapi/public.go.
pub mod Memory
pub mod Live
