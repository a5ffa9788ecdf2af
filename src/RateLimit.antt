-- ===== src/RateLimit.antt =====
-- internal/httpapi/main_rate_limit.go: the rate limit of the main API.
pub mod Classes
pub mod Middleware
pub mod Window
