-- ===== src/Notifications.antt =====
-- The consumer of booking events (src/notifications/).
pub mod RetryPolicy
pub mod Service
pub mod Once
pub mod Consumer
pub mod Sending
pub mod Fate
pub mod Message
pub mod Startup
