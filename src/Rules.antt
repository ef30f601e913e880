-- ===== src/Rules.antt =====
-- The rule engine: app/workers/alert_checker.py.
pub mod Predicate
pub mod Chain
pub mod Plan
pub mod Walk
pub mod Suppression
pub mod Execution
mod Tests
