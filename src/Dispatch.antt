-- ===== src/Dispatch.antt =====
-- How update events reach the transcoders and request strategies, and how requests are asked of
-- them: Source/Synchronization/ZMSyncStrategy.m, ZMRequestGenerator.m.
pub mod Generators
pub mod Strategy
pub mod Routing
pub mod Calls
