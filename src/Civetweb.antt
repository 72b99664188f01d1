-- ===== src/Civetweb.antt =====
-- The CivetWeb example, on the agent's C interface.
pub mod Headers
pub mod Handlers
pub mod Served
pub mod Main
