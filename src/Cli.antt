-- ===== src/Cli.antt =====
-- commands.go: the commands of the prompt.
pub mod Commands
pub mod Quant
pub mod Flags
pub mod Dispatch
pub mod Quits
pub mod Session
pub mod Clearing
pub mod Samples
mod Examples
