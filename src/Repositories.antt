-- ===== src/Repositories.antt =====
-- The repositories of the api: `Delete` of api/repository.go, with the quotas and the images that it
-- keeps in step.
pub mod Usage
pub mod Removal
pub mod UsageLaws
pub mod Calm
pub mod Charged
pub mod RemovalLaws
pub mod Copy
pub mod CopyLaws
pub mod CopySteps
pub mod CopyRights
pub mod Pushes
pub mod Within
pub mod ImageLaws
pub mod PushLaws
pub mod Changes
mod ChangeTests
mod CopyTests
mod Tests
