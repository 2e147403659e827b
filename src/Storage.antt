-- ===== src/Storage.antt =====
-- internal/modules/storage: the mount targets of remote storage, and the snapshot of a host's storage.
pub mod Names
pub mod Targets
pub mod Remote
pub mod Model
pub mod Graph
pub mod Aggregate
pub mod Order
pub mod Summary
pub mod Limit
pub mod Normalize
pub mod Definitions
pub mod Units
pub mod Host
pub mod Files
pub mod Artifacts
pub mod System
pub mod Lifecycle
