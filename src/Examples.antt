-- ===== src/Examples.antt =====
-- Concrete inputs: the theorems applied to them, and runs of the code.
pub mod Http
pub mod Frames
pub mod Masks
pub mod Streambufs
pub mod Fields
pub mod Streams
pub mod Readers
pub mod ReadOps
