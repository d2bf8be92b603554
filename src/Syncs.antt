-- ===== src/Syncs.antt =====
-- The helpers with which the transcoders keep track of what is to be requested:
-- Source/Synchronization/.
pub mod Single
pub mod InsertedSet
pub mod OperationSet
pub mod Dependents
pub mod Timed
pub mod EventsBuffer
pub mod Paginator
pub mod RemoteIdentifiers
pub mod Contracts
pub mod Modified
pub mod Downstream
pub mod Upstream
pub mod Whitelist
