-- ===== src/Token.antt =====
-- The token service: what a request for the registry may do (service/token).
pub mod Directory
pub mod Access
pub mod Rights
mod Tests
