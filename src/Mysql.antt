-- ===== src/Mysql.antt =====
-- The MySQL example: mysql/mysql_example.cpp.
pub mod Session
pub mod Threads
pub mod Queries
pub mod Demo
pub mod Handlers
pub mod Traced
pub mod Shown
pub mod Served
pub mod Server
pub mod Ownership
pub mod Owned
pub mod Phases
