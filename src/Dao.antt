-- ===== src/Dao.antt =====
-- The database: the store of tables, and the functions of the package dao on it.
pub mod Rows
pub mod RowsMore
pub mod Store
pub mod Replication
pub mod Projects
pub mod Users
pub mod AccessLog
pub mod LogClauses
mod LogTests
