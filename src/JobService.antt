-- ===== src/JobService.antt =====
-- The API of the job service.
pub mod Repos
pub mod Fetching
pub mod Jobs
pub mod Actions
mod Tests
pub mod Requests
