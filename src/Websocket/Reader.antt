-- ===== src/Websocket/Reader.antt =====
-- include/beast/websocket/impl/stream.ipp: the blocking reads of a stream, `close`, `ping` and
-- `reset`. What the stream below does is a parameter: the bytes that it will give before it fails,
-- how many of them each `read_some` gives at most, and whether the teardown fails.
pub mod Headers
pub mod HeadRead
pub mod Closes
pub mod Controls
pub mod Rounds
pub mod Total
pub mod WholeHeader
pub mod Cipher
pub mod Payload
pub mod Piece
pub mod FrameStart
pub mod FrameRead
pub mod Message
pub mod Within
pub mod Deliver
pub mod RoundTrip
pub mod Calls
pub mod Control
pub mod Loop
use beast.Base.{
  ℕ, zero, suc, ◌-◌, min, Bool, true, false, not, ◌&&◌, ◌||◌, ltb, ◌==◌, if◌then◌else◌, Option,
  none, some, Bytes, List, [], ◌∷◌, ◌++◌, length, take, drop,
}
use beast.Websocket.Frame.{Endian}
use beast.Websocket.Stream.{Below, Stream, send, draw}
use beast.Websocket.StreamBase.{CloseReason, StreamBase, Step, read_fh1, read_fh2}
use beast.Websocket.StreamBase.Close.{read_close}
use beast.Websocket.StreamBase.Write.{masked, write_ping, write_close}
use beast.Websocket.Types.{
  Opcode, text, close, ping, pong, is_control, CloseCode, code_none, code_normal, code_bad_payload,
}
use beast.Websocket.Utf8.{Utf8Checker, write, finish, check_utf8}

-- The stream below: its writes and mask keys; that its i-th `read_some` gives at most
-- `suc (chunk i)` bytes; whether a teardown fails; and whether a pong callback is set.
pub record Net : Type 0 where
  pub below : Below
  pub chunk : ℕ → ℕ
  pub teardown_fails : Bool
  pub pong_cb : Bool

-- A stream that reads. `input` is what the stream below has still to give, `buffer` the readable
-- bytes of the caller's buffer, `pongs` the calls of the pong callback; `reads` and `teardowns`
-- count.
pub record Reader : Type 0 where
  pub s : Stream
  pub utf8 : Utf8Checker
  pub input : Bytes
  pub reads : ℕ
  pub buffer : Bytes
  pub pongs : List Bytes
  pub teardowns : ℕ

-- `ec` where it is set: an error of the stream below, `error::closed` and `error::failed`.
pub data Error : Type 0 where
  below_failed closed failed : Error

-- What `read_frame` gives: `fi`, or an error.
pub data Outcome : Type 0 where
  info : Opcode → Bool → Outcome
  error : Error → Outcome

-- What a round of its loop does; `broken` is a failed assertion.
pub data Round : Type 0 where
  again : Reader → Round
  stop : Reader → Outcome → Round
  broken : Round

abbrev pub set_st : StreamBase → Reader → Reader
set_st st r = record r { s = record r.s { st = st } }

abbrev pub set_failed : Bool → Reader → Reader
set_failed b r = set_st (record r.s.st { failed = b }) r

-- `boost::asio::read` of `n` bytes; where there are fewer it takes them, and fails.
abbrev pub read_exactly : ℕ → Reader → Option (Bytes × Reader)
read_exactly n r =
    if ltb (length r.input) n
    then none
    else some (take n r.input, record r { input = drop n r.input })

-- `failed_ = ec != 0; if(failed_) return;` behind a read that has failed.
abbrev pub read_failed : Reader → Round
read_failed r = stop (set_failed true (record r { input = [] })) (error below_failed)

-- What `do_read_fh` leaves: an error, or the buffer with the close code.
pub data Header : Type 0 where
  header : Reader → Bytes → CloseCode → Header
  short : Reader → Header
  assertion : Header

-- Its end, `read_fh2`.
unfoldable pub second_header : Reader → Bytes → Header
second_header r fb = elim (read_fh2 r.s.st fb) [
  | none ↦ assertion
  | some t ↦ header (set_st t.st r) t.db t.code
]

-- What it does with what `read_fh1` leaves.
unfoldable pub first_header : Reader → Step → Header
unfolding second_header
first_header r t =
    let r' = set_st t.st r in
    if not (t.code == code_none)
    then header r' t.db t.code
    else if ltb 0 t.need
    then elim (read_exactly t.need r') [
      | none ↦ short r'
      | some (bs, r'') ↦ second_header r'' (t.db ++ bs)
    ]
    else second_header r' t.db

unfoldable pub do_read_fh : Reader → Header
unfolding first_header
do_read_fh r = elim (read_exactly 2 r) [
  | none ↦ short r
  | some (fb, r') ↦ elim (read_fh1 r'.s.st fb) [ none ↦ assertion | some t ↦ first_header r' t ]
]
