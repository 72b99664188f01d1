-- ===== src/Cpptrace.antt =====
-- The cpptrace example: call stacks of failed calls.
pub mod Stack
pub mod Headers
pub mod Handlers
pub mod Sent
pub mod Served
