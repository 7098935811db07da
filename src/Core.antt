-- ===== src/Core.antt =====
-- include/beast/core.
pub mod Streambuf
pub mod CiChar
pub mod Queue
pub mod StaticStreambuf
