-- ===== src/Http.antt =====
-- include/beast/http: the HTTP/1 message parser.
pub mod Chars
pub mod Parser
pub mod ChunkEncode
pub mod Rfc7230
