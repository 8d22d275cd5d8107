-- ===== src/Planning.antt =====
-- PackML_Stations/planning: matching a product's process to the resources, and the plan.
pub mod Text
pub mod Matcher
pub mod Best
pub mod Matched
pub mod Steps
pub mod Tree
pub mod Generator
pub mod Production
pub mod Calls
pub mod Hierarchy
pub mod Service
pub mod Response
pub mod Outcomes
pub mod Process
pub mod Subtrees
pub mod Prebuilt
mod Examples
mod Runs
