-- ===== src/Store.antt =====
-- The database rows that the control plane keeps for an incident, and the tables as one value.
pub mod Records
pub mod Case
