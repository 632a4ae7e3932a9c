-- ===== src/Start.antt =====
-- main.go, signals.go and config.go: how the program starts, and the signals that it takes.
pub mod Flags
pub mod Launch
pub mod Signals
pub mod Daemon
pub mod Interrupts
mod Examples
