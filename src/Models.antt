-- ===== src/Models.antt =====
-- The records of the package models that the components share (models/*.go).
pub mod Replication
