-- ===== src/Purge.antt =====
-- The worker that deletes expired telemetry: app/workers/data_retention.py.
pub mod Plan
pub mod Loop
pub mod Expired
pub mod Outage
mod Tests
