-- ===== src/Webhooks.antt =====
-- Webhooks: app/workers/webhook_dispatcher.py, and the message that `RedisActionSink` of
-- app/workers/alert_checker.py publishes for it.
pub mod Policy
pub mod Event
pub mod Delivery
pub mod Attempts
pub mod Published
mod Tests
