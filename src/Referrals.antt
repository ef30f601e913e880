-- ===== src/Referrals.antt =====
-- Referrals and their rewards: app/services/referral_service.py.
pub mod Referral
pub mod Rewards
mod Tests
