-- ===== src/Syncs/Contracts.antt =====
-- The interfaces that the headers of Source/Synchronization/ declare: a record of operations for
-- each, and laws of them that their clients rely on.
pub mod Requests
pub mod Identifiers
pub mod Objects
pub mod Events
