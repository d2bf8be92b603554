-- ===== src/Typing.antt =====
-- Who is typing: Source/Data Model/Typing.
pub mod Transcoder
pub mod Timeouts
pub mod Machine
pub mod Laws
