-- ===== src/Notifications.antt =====
-- The notification worker: app/workers/notification_sender.py.
pub mod Channels
pub mod Sender
pub mod Events
pub mod Reports
mod Tests
