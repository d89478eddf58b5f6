-- ===== src/Scan.antt =====
-- The scan of images by Clair: the report, and what is counted in it.
pub mod Severity
pub mod Layers
pub mod Report
pub mod Count
pub mod Lines
pub mod CountLaws
mod Tests
