-- ===== src/Registration.antt =====
-- Registration_Service/src: what a registration puts into the topics of the delegation service.
pub mod Endpoint
pub mod Config
pub mod Topics
pub mod Replay
pub mod Lookup
pub mod Requests
mod Examples
