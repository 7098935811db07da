-- ===== src/Websocket/Mask.antt =====
-- include/beast/websocket/detail/mask.hpp: the loops, what they mean, and that they implement it.
pub mod Defs
pub mod Spec
pub mod Refine
pub mod Refine64
pub mod Lengths
pub mod Laws
