-- ===== src/Devices.antt =====
-- Devices, their credentials, groups and assignments: app/services/device_service.py.
pub mod Tables
pub mod Service
pub mod Limit
pub mod Credentials
mod Tests
