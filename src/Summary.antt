-- ===== src/Summary.antt =====
-- summary.go and sortmap.go: the statistics on connections and runs.
pub mod SortMap
pub mod Hosts
pub mod Report
pub mod Balance
pub mod Weights
pub mod Order
mod Examples
