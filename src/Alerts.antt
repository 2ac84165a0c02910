-- ===== src/Alerts.antt =====
-- backend/app/alerts: how alerts are grouped, and which of them open an incident.
pub mod Inbox
pub mod Unique
pub mod Repeat
pub mod Tracked
pub mod Explained
pub mod Latest
