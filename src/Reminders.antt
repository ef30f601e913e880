-- ===== src/Reminders.antt =====
-- The worker that reminds of ending subscriptions: app/workers/subscription_expiry.py.
pub mod Due
pub mod Sweep
pub mod OneShot
mod Tests
