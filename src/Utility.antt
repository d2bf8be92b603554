-- ===== src/Utility.antt =====
-- Source/Utility/.
pub mod Tracing
