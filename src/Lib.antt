-- ===== src/Lib.antt =====
-- Beast: the HTTP/1 parser, the WebSocket frame layer and the stream buffers.
--
-- The parts and how they interact
--
-- An HTTP server or client feeds the bytes that it reads to `basic_parser_v1` (include/beast/http/
-- basic_parser_v1.hpp, impl/basic_parser_v1.ipp), a state machine that calls back a derived class
-- with pieces of the message; it classifies characters by the tables of include/beast/http/detail/
-- rfc7230.hpp. A WebSocket stream (include/beast/websocket) reads and writes frames: its base class
-- (detail/stream_base.hpp) decodes frame headers in two steps, detail/frame.hpp encodes them,
-- detail/mask.hpp masks payloads, and detail/endian.hpp is the byte order. Frames and messages are
-- kept in dynamic buffers, `basic_streambuf` and `static_streambuf` (include/beast/core), and field
-- values that are lists are read by the parsers of include/beast/http/impl/rfc7230.ipp.
--
-- What models what
--
-- - Http/Chars: detail/rfc7230.hpp. A `char` is an octet; -1 from `unhex` is `none`.
-- - Http/Parser/Types: the enumerations, the members of the parser as the record `Parser`, and the
--   interface `Derived` of the class derived from it, a parameter: one function for each callback, on
--   a state of its own and the error code that it is given by reference. The state `s_x` is `x`.
-- - Http/Parser/Calls: the calls into the derived class with the limits for the header and the body
--   (`call_on_method` and the others), the lambda `cb`, `needs_eof`, `keep_alive`, `reset`.
-- - Http/Parser/StartLine, Headers, Body, Chunks: the cases of the switch in `write`, a function
--   `at_x` for `case s_x`; Fields and Values hold the inner switches on `fs_`. A case gives an
--   `Outcome`: the `break`, the `break` behind `--p`, or the `return`, with the characters skipped.
--   A `goto redo` and a fall-through are calls of the function for the case that they lead to. The
--   bytes from `begin` to `p` are kept as the field `piece`.
-- - Http/Parser/Write: the switch, the loop over a buffer and over a buffer sequence, `write_eof`.
-- - Http/Parser/Invariant: one file for the proofs on each file of cases, then the round, the loop and
--   `write`. Http/Parser/Numbers: the numbers read digit by digit.
-- - Websocket/Types: rfc6455.hpp and the types of detail/frame.hpp. Websocket/Frame: detail/endian.hpp
--   and `write` of detail/frame.hpp; Boost.Endian's buffers are the parameter `Endian`.
-- - Websocket/Mask: detail/mask.hpp. Defs has the loops as written, for keys of 32 and 64 bits; Spec is
--   a key of four bytes that turns by one byte for each byte of payload; Refine and Refine64 show
--   that the loops implement it, and Laws draws the consequences.
-- - Websocket/StreamBase: detail/stream_base.hpp. The dynamic buffer is the list of its bytes.
--   Write has `wr_prepare` and the control frames; the mask key is a parameter.
-- - Websocket/StreamBase/Close: the reader of a close frame's payload in detail/frame.hpp.
-- - Websocket/Stream: the blocking `write_frame` of websocket/impl/stream.ipp. The stream below is a
--   parameter that says whether its i-th write fails, and the mask generator one that says its i-th
--   key; the bytes of each write are kept. Fragments, Message and Chunks are proofs.
-- - Websocket/Utf8: detail/utf8_checker.hpp, a machine that steps by a table. Spec is the encoding of
--   RFC 3629, States the table by ranges, and Sound, Octets, Encode and Check are proofs.
-- - Websocket/Reader: the blocking `read_frame`, `read`, `close` and `ping` of stream.ipp, and `reset`.
--   The stream below is a parameter: the bytes that it will give before it fails, and how many at
--   once. Control has what `read_frame` does with a control frame, and Loop the rest of its loop;
--   Headers to Total are on any input, WholeHeader to RoundTrip on what the other end has written,
--   and Calls is on one call after another.
-- - Websocket/ReadOp: read_frame_op in websocket/impl/read_frame_op.ipp, the asynchronous read of a
--   frame. Its state says where it goes on when what it has started is done. Cases has the cases of
--   the switch, and Switch the switch and the loop around it, on fuel for its rounds, of
--   which five are enough, by the rank of a state in Rounds. What it starts is a value that a call gives, and what comes of it the argument
--   of the next; other operations act between two calls. Rounds and Controls have what a case
--   keeps, and Loop a whole call.
-- - Http/ChunkEncode: detail/chunk_encode.hpp in include/beast/http; buffers are their bytes.
-- - Core/Streambuf: core/basic_streambuf.hpp and core/impl/basic_streambuf.ipp. The list of elements is
--   split at `out_` into two lists of bytes. Core/Queue is what a dynamic buffer promises. Valid has
--   the invariant, which is that of `debug_check`, and the view of a buffer as a queue; Views,
--   Prepare, Commit, Consumed, Consume and Store are on the operations, Refine puts them together,
--   and Use is for clients.
-- - Core/StaticStreambuf: core/static_streambuf.hpp and its .ipp, an array with positions in place of
--   pointers; Refine shows that it implements the same queue.
-- - Core/CiChar: core/detail/ci_char_traits.hpp. A `char` is its octet, and whether it is signed, on
--   which the order of those from 128 on depends, a parameter.
-- - Http/Rfc7230: the parsers of parameters in http/detail/rfc7230.hpp and `param_list`; Tokens and
--   Exts are `token_list` and `ext_list` of http/impl/rfc7230.ipp. An iterator into a text is the rest
--   of the text. Spans, TokenLaws, TokenSound, Unquote, Params, ParamText, ExtParams and ExtText are
--   proofs.
-- - Base: Booleans on numbers, lists by native length and index, bitwise operations by bits.
-- - Examples: runs and concrete instances.
--
-- Numbers, bounds and fuel
--
-- Numbers are natural numbers; an unsigned integer of w bits keeps its wrap-around as `% 2 ^ w`.
-- `std::size_t` and pointers have 64 bits. The loops recur on the bytes of a buffer, which each
-- round of the parser shortens. `to_hex` runs on fuel, 16, the hexadecimal digits of a
-- `std::size_t`. The loop of `prepare` that allocates runs on as many turns as bytes are wanted,
-- and the loops over a list in a field value on one more than the text has characters; each turn
-- makes or takes at least one. The loops of `write_frame` have fuel for the bytes of the payload
-- and at most two turns more: only the first may find the buffer full and take none. The loops of
-- `read_frame` and `read` have fuel for one round more than there are bytes of input: each round but
-- the last takes at least one.
--
-- What is not modelled
--
-- The narrow bit fields of the parser's members, whose values stay within them; move and copy, but
-- for the stream buffer's; decorators and handlers of a stream, which are callables; its handshake
-- and its asynchronous operations but for read_frame_op; exceptions of the caller's buffer where a
-- payload is read; the other buffers, the containers of headers, and the third-party Base64 and
-- SHA-1. An `assert` that fails in the frame reader is the result `none`.
pub mod Base
pub mod Core
pub mod Http
pub mod Websocket
pub mod Examples
