-- ===== src/Http/Parser/Invariant.antt =====
-- The invariant of the parser, case by case of `write`, and its consequences.
pub mod Defs
pub mod StartLine
pub mod Fields
pub mod Headers
pub mod Body
pub mod Chunks
pub mod OneChar
pub mod Round
pub mod Loop
pub mod Write
