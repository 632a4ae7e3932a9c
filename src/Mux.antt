-- ===== src/Mux.antt =====
-- controlmux.go: the ControlMaster protocol.
pub mod Wire
pub mod Messages
pub mod RoundTrip
pub mod Frames
pub mod Handler
pub mod Replies
pub mod Sessions
pub mod Disposal
pub mod Sockets
pub mod Lifetime
mod Examples
