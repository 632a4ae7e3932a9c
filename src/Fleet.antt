-- ===== src/Fleet.antt =====
-- connect.go, resolve.go, proxy.go, remotehost.go and json.go: the targets and their connections.
pub mod Net
pub mod Remote
pub mod Proxy
pub mod Resolve
pub mod Disconnect
pub mod Sweeps
pub mod Standalone
pub mod Manned
pub mod Connect
pub mod Reported
pub mod Json
pub mod Loading
pub mod Waits
pub mod Returns
pub mod Totals
pub mod Steady
pub mod Growth
pub mod Dials
pub mod Links
pub mod Chains
pub mod Addresses
pub mod Arrivals
pub mod Attempts
pub mod Proxies
pub mod Rounds
pub mod Race
pub mod Tokens
pub mod Stragglers
pub mod Relay
pub mod Receipts
pub mod Aftermath
mod Aborts
mod Examples
mod Endings
mod Journeys
