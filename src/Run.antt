-- ===== src/Run.antt =====
-- run.go: commands on the targets, one host at a time or all of them.
pub mod Program
pub mod Spool
pub mod Command
pub mod Parts
pub mod Verdicts
pub mod Ends
pub mod Steady
pub mod Statuses
pub mod Reported
pub mod Outputs
pub mod Quiet
pub mod Everywhere
mod Examples
