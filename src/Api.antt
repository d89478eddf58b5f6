-- ===== src/Api.antt =====
-- The handlers of the package api that change the database.
pub mod Policies
pub mod Targets
pub mod Roles
pub mod Projects
pub mod Members
pub mod Jobs
pub mod Session
pub mod Pages
pub mod PageLaws
pub mod PageLinks
pub mod Users
pub mod Triggers
pub mod TriggerLaws
mod TriggerTests
pub mod Server
pub mod Sound
pub mod Ends
pub mod PolicyInvariant
pub mod TargetInvariant
pub mod MemberInvariant
pub mod Invariant
pub mod Outcomes
pub mod UserOutcomes
pub mod UserServer
pub mod Admins
pub mod Logins
mod Tests
mod PageTests
mod UserTests
