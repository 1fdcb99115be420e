-- ===== src/Tests.antt =====
-- Sample data, and the modules of tests on it.
pub mod Data
pub mod Upload
pub mod Importing
pub mod Administration
pub mod Figures
pub mod Syncing
pub mod Records
