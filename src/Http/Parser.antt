-- ===== src/Http/Parser.antt =====
-- include/beast/http/basic_parser_v1.hpp and impl/basic_parser_v1.ipp.
pub mod Types
pub mod Calls
pub mod Fields
pub mod Values
pub mod Outcome
pub mod StartLine
pub mod Headers
pub mod Body
pub mod Chunks
pub mod Write
pub mod Numbers
pub mod Invariant
