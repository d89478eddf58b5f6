-- ===== src/Utils.antt =====
-- The package utils.
pub mod Link
pub mod LinkLaws
