-- ===== src/Paths.antt =====
-- Planar_Controller/library: the path search of the movers and what prepares and simplifies it.
pub mod Grid
pub mod Search
pub mod Measure
pub mod Route
pub mod Invariant
pub mod Push
pub mod Relax
pub mod Take
pub mod Correct
pub mod Astar
pub mod Simplify
pub mod Occupancy
pub mod Obstacles
pub mod Merge
pub mod Shortcuts
pub mod Clearance
mod Examples
pub mod Floors
mod Ways
