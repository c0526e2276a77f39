-- ===== src/Tests.antt =====
-- Sample data, and the theorems of the development applied to it.
pub mod Rows
pub mod Reviews
pub mod Routes
pub mod Requests
pub mod Caches
pub mod Searches
pub mod Served
