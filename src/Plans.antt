-- ===== src/Plans.antt =====
-- What a plan allows: app/services/plan_limits.py, with the plan tests that app/services/rule_service.py
-- and app/workers/data_retention.py make on their own, and the monthly message quota of
-- app/services/quota_service.py.
pub mod Limits
pub mod Quota
pub mod Metering
mod Tests
