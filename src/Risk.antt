-- ===== src/Risk.antt =====
-- backend/app/risk: the deterministic risk score of a proposed action.
pub mod Floats
pub mod Engine
pub mod Bounds
pub mod Order
