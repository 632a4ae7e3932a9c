-- ===== src/Store.antt =====
-- state.go: the program's global state, and the goroutine that serializes access to it.
pub mod Types
pub mod Serializer
pub mod Methods
pub mod Invariant
pub mod Tally
pub mod Waiters
pub mod Panics
pub mod Races
pub mod View
pub mod Refinement
pub mod History
mod Examples
