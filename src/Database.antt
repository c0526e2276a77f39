-- ===== src/Database.antt =====
-- Package database: the transactions of the review, and the order in which they lock.
pub mod Session
pub mod Locks
pub mod Search
