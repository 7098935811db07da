-- ===== src/Websocket.antt =====
-- include/beast/websocket: the framing layer of the WebSocket protocol.
pub mod Types
pub mod Utf8
pub mod Frame
pub mod Mask
pub mod StreamBase
pub mod Stream
pub mod Reader
pub mod ReadOp
