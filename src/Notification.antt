-- ===== src/Notification.antt =====
-- The notifications of the registry (service/notification.go).
pub mod Events
pub mod Collected
mod Tests
