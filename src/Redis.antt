-- ===== src/Redis.antt =====
-- The Redis example: redis/redis_example.cpp.
pub mod Command
pub mod Demo
pub mod Traced
pub mod Commands
pub mod Served
pub mod Settings
pub mod Owned
