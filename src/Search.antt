-- ===== src/Search.antt =====
-- The search for projects and repositories.
pub mod Filter
pub mod Get
pub mod FilterLaws
mod Tests
