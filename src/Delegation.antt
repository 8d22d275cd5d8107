-- ===== src/Delegation.antt =====
-- OperationDelegation: AAS operations as MQTT commands and their responses.
pub mod Values
pub mod Bridge
pub mod Effects
pub mod Delivery
pub mod Isolation
pub mod Owning
pub mod Alone
pub mod Schema
pub mod Command
pub mod Response
pub mod Service
pub mod Found
pub mod Extract
pub mod Packing
pub mod Items
pub mod RoundTrip
pub mod Keys
pub mod Fields
pub mod Topics
mod Examples
mod Moves
