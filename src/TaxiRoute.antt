-- ===== src/TaxiRoute.antt =====
-- `loadTaxiPathGraph` and `ShortestTaxiRoute` of internal/modernworld/taxi.go.
pub mod Graph
pub mod Search
pub mod Walk
pub mod Invariant
pub mod Relax
pub mod Rounds
pub mod Ends
pub mod Trace
pub mod Shortest
