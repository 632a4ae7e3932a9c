-- ===== src/Output.antt =====
-- output.go: the one goroutine that prints.
pub mod Screen
pub mod Counts
pub mod Serializer
pub mod Serial
pub mod Remaining
pub mod Progress
mod Examples
