-- ===== src/GeoRouting.antt =====
-- apps/api/src/planning/geo-routing.ts: grouping by proximity and the order of a group's stops.
pub mod Clusters
pub mod Partition
pub mod Route
pub mod Lengths
pub mod Improves
pub mod Optimum
mod Samples
