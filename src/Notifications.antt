-- ===== src/Notifications.antt =====
-- backend/app/notifications: the outbox of notifications and its bounded retries.
pub mod Outbox
pub mod Bounded
pub mod Again
