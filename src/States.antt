-- ===== src/States.antt =====
-- The sync state machine: Source/Synchronization/Sync States/.
pub mod World
pub mod Machine
pub mod Transitions
pub mod Requests
pub mod Events
pub mod Frame
pub mod Landing
pub mod Invariant
pub mod Handlers
pub mod Loop
pub mod Diagram
pub mod Processing
pub mod Login
pub mod Gate
pub mod Interface
