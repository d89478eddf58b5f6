-- ===== src/Sync.antt =====
-- The comparison of the registry with the table of repositories.
pub mod Diff
pub mod DiffLaws
pub mod Registry
pub mod Agree
mod Tests
