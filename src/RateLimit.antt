-- ===== src/RateLimit.antt =====
-- Token-bucket rate limiting: app/core/rate_limit.py and the middleware that stands before every
-- request, app/core/security/rate_limit_middleware.py.
pub mod Bucket
pub mod Retry
pub mod Window
pub mod Expiry
pub mod Skew
pub mod Middleware
pub mod Requests
mod Tests
