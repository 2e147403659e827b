-- ===== src/Broker.antt =====
-- internal/broker: the root broker.
pub mod Sessions
pub mod Locks
pub mod Text
pub mod Params
pub mod Actions
pub mod Attempts
pub mod Faults
pub mod Registration
pub mod Streams
pub mod Server
