-- ===== src/Ai.antt =====
-- backend/app/ai: the boundary between a model's suggestion and a governed proposal.
pub mod Boundary
pub mod Labels
pub mod Advice
pub mod Again
