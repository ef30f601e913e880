-- ===== src/Command.antt =====
-- The command service: app/services/command_service.py.
pub mod Status
pub mod World
pub mod Service
pub mod Lifecycle
pub mod Steps
pub mod Issue
pub mod Evolution
pub mod Reach
pub mod Flush
pub mod Offline
pub mod Online
pub mod Acks
mod Tests
mod OnlineTests
