-- ===== src/PackMl/Invariant.antt =====
-- What holds of a station between two callbacks.
mod Settled
mod Steps
pub mod Traces
pub use Settled.{Base, Inv, is_resting, settle-Inv}
