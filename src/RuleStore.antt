-- ===== src/RuleStore.antt =====
-- The stored rules: app/services/rule_service.py.
pub mod Tables
pub mod Service
pub mod Writing
pub mod Limit
pub mod Outcomes
pub mod LimitKept
pub mod Graphs
pub mod Tenants
mod Tests
