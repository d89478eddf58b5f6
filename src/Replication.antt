-- ===== src/Replication.antt =====
-- The handlers that carry a replication job out (job/replication/transfer.go, delete.go, error.go).
pub mod World
pub mod Transfer
pub mod Delete
pub mod Closed
pub mod PullSafety
pub mod Safety
pub mod Erase
pub mod Calm
pub mod Copies
pub mod Removed
mod Tests
