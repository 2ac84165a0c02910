-- ===== src/Incidents.antt =====
-- backend/app/incidents: the state machine of an incident.
pub mod Machine
pub mod Reach
pub mod Service
pub mod Lifecycle
