-- ===== src/PackMl.antt =====
-- PackML_Stations/PackMLSimulator.py: the station state machine with its occupation queue.
pub mod Machine
pub mod States
pub mod Commands
pub mod Occupation
pub mod Execution
pub mod Settle
pub mod Trace
pub mod Invariant
pub mod Control
pub mod Register
pub mod Release
pub mod Process
pub mod Stuck
mod Examples
