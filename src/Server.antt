-- ===== src/Server.antt =====
-- server.go: the SSH server.
pub mod Dims
pub mod Accept
pub mod Channel
pub mod Requests
pub mod Sessions
pub mod Windows
pub mod Setup
mod Examples
