-- ===== src/Tests.antt =====
-- Tests: the theorems at concrete inputs.
mod Artifacts
pub mod Memory
mod JobStore
mod StoreTrim
mod Sessions
mod Locks
mod Actions
mod Params
mod Attempts
mod Resolver
mod Server
mod Streams
mod Registration
mod AuditStore
mod Host
mod Targets
mod Remotes
mod FileRoots
mod Snapshots
mod RemoteMounts
mod Packages
