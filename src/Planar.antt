-- ===== src/Planar.antt =====
-- Planar_Controller: the mover system's controller.
pub mod Controller
pub mod Buttons
pub mod Commands
pub mod Published
pub mod Reports
pub mod Mover
pub mod Plan
pub mod Execute
pub mod Task
pub mod Track
pub mod Bounds
pub mod Routes
pub mod Clear
pub mod Rings
pub mod Nearest
pub mod Moves
pub mod Stops
pub mod Arrives
pub mod Replans
pub mod Handle
pub mod Level
mod Examples
mod Journeys
mod Floors
