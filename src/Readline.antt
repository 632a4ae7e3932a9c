-- ===== src/Readline.antt =====
-- readline.go: the wrapper of GNU Readline.
pub mod Memory
pub mod Calls
pub mod Safe
mod Examples
