-- ===== src/Runbooks.antt =====
-- backend/app/runbooks: the declarative runbooks and the choice of one.
pub mod Texts
pub mod Schema
pub mod Loader
pub mod Choice
