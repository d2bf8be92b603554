-- ===== src/Utility/Tracing/Codes.antt =====
-- The numbers that ZMTracing.h documents for the first arguments of its functions.
pub mod Loops
pub mod Sessions
pub mod Sockets
pub mod Logins
