-- ===== src/Websocket/StreamBase.antt =====
-- include/beast/websocket/detail/stream_base.hpp: the state of a stream and the frame header reader.
-- Left out of the record: the mask generator, the decorator and the handlers, which are callables.
-- `wr_block_` is the identity of the operation that is writing, `wr_.buf` the size allocated, and
-- the UTF-8 checker is left out.
pub mod Laws
pub mod Sizes
pub mod FixedBytes
pub mod RoundTrip
pub mod Write
pub mod Control
pub mod Close
use beast.Base.{
  ℕ, ◌+◌, ◌-◌, ◌^◌, bit_and, Bool, true, false, not, ◌&&◌, ◌||◌, ltb, ◌==◌, if◌then◌else◌, Option,
  none, some, Bytes, [], ◌∷◌,
}
use mathlib.Core.Option
use beast.Websocket.Frame.{big_uint16_to_native, big_uint64_to_native, little_uint32_to_native}
use beast.Websocket.Mask.Defs.{prepare_key64}
use beast.Websocket.Types.{
  Opcode, cont, text, binary, to_opcode, is_reserved, is_control, CloseCode, code_none,
  code_protocol_error, code_too_big, Role, client, server, FrameHeader,
}

pub record CloseReason : Type 0 where
  pub code : CloseCode
  pub reason : Bytes

-- `wr_t`
pub record Writer : Type 0 where
  pub cont : Bool
  pub autofrag : Bool
  pub compress : Bool
  pub size : ℕ
  pub max : ℕ
  pub buf : Option ℕ

pub record StreamBase : Type 0 where
  pub keep_alive : Bool
  pub rd_msg_max : ℕ
  pub wr_autofrag : Bool
  pub wr_buf_size : ℕ
  pub wr_opcode : Opcode
  pub role : Role
  pub failed : Bool
  pub rd_fh : FrameHeader
  pub rd_key : ℕ
  pub rd_size : ℕ
  pub rd_need : ℕ
  pub rd_opcode : Opcode
  pub rd_cont : Bool
  pub wr_close : Bool
  pub wr_block : Option ℕ
  pub pong_data : Option Bytes
  pub cr : CloseReason
  pub wr : Writer

-- `wr_t::open` and `wr_t::close`
unfoldable pub wr_open : Writer → Writer
wr_open w = record w { cont = false; size = 0 }

unfoldable pub wr_close : Writer → Writer
wr_close w = record w { buf = none }

unfoldable pub open_stream : StreamBase → Role → StreamBase
unfolding wr_open
open_stream st role = record st {
  role = role;
  failed = false;
  rd_need = 0;
  rd_cont = false;
  wr_close = false;
  wr_block = none;
  pong_data = none;
  wr = wr_open st.wr;
}

unfoldable pub close_stream : StreamBase → StreamBase
unfolding wr_close
close_stream st = record st { wr = wr_close st.wr }

-- `(b & m) != 0`
abbrev pub bit_set : ℕ → ℕ → Bool
bit_set b m = not (bit_and b m == 0)

-- What `read_fh1` stores into `rd_fh_`; the key is that of the frame before.
unfoldable pub parse_fixed : FrameHeader → ℕ → ℕ → FrameHeader
unfolding to_opcode
parse_fixed old b0 b1 = record old {
  len = bit_and b1 0x7f;
  mask = bit_set b1 0x80;
  op = to_opcode (bit_and b0 0x0f);
  fin = bit_set b0 0x80;
  rsv1 = bit_set b0 0x40;
  rsv2 = bit_set b0 0x20;
  rsv3 = bit_set b0 0x10;
}

-- The bytes that `read_fh2` will want.
unfoldable pub fh_need : FrameHeader → ℕ
fh_need fh =
    (if fh.len == 126 then 2 else if fh.len == 127 then 8 else 0) + (if fh.mask then 4 else 0)

abbrev any_rsv : FrameHeader → Bool
any_rsv fh = fh.rsv1 || fh.rsv2 || fh.rsv3

abbrev pub is_cont : Opcode → Bool
is_cont cont = true
is_cont _ = false

-- The switch on the opcode: whether it goes to `err(close_code::protocol_error)`.
unfoldable pub bad_opcode : Opcode → Bool → FrameHeader → Bool
unfolding is_reserved
bad_opcode binary rd_cont fh = rd_cont || any_rsv fh
bad_opcode text rd_cont fh = rd_cont || any_rsv fh
bad_opcode cont rd_cont fh = not rd_cont || any_rsv fh
bad_opcode op rd_cont fh = is_reserved op || not fh.fin || ltb 125 fh.len || any_rsv fh

-- A client's frames are masked, a server's are not.
unfoldable pub bad_mask : Role → Bool → Bool
bad_mask server mask = not mask
bad_mask client mask = mask

-- What a header step leaves: the stream, the buffer, the close code and the bytes needed next.
pub record Step : Type 0 where
  pub st : StreamBase
  pub db : Bytes
  pub code : CloseCode
  pub need : ℕ

-- `read_fh1` once the fixed bytes are stored in `rd_fh_`.
unfoldable pub check_fixed : StreamBase → Bytes → FrameHeader → Step
unfolding fh_need bad_opcode bad_mask
check_fixed st db fh =
    let st' = record st { rd_fh = fh } in
    if bad_opcode fh.op st.rd_cont fh
    then record { st = st'; db = db; code = code_protocol_error; need = 0 }
    else if bad_mask st.role fh.mask
    then record { st = st'; db = db; code = code_protocol_error; need = 0 }
    else record { st = st'; db = db; code = code_none; need = fh_need fh }

-- `none` is a failed `assert`: fewer bytes in the buffer than are read.
unfoldable pub read_fh1 : StreamBase → Bytes → Option Step
unfolding parse_fixed check_fixed
read_fh1 st (b0 ∷ b1 ∷ db) = some (check_fixed st db (parse_fixed st.rd_fh b0 b1))
read_fh1 st (b0 ∷ []) = none
read_fh1 st [] = none

-- The two extended lengths: the header with the length, the rest of the buffer, and whether the
-- length could not have been shorter.
unfoldable pub read_len16 : FrameHeader → Bytes → Option (FrameHeader × Bytes × Bool)
unfolding big_uint16_to_native
read_len16 fh (p0 ∷ p1 ∷ db) =
    let len = big_uint16_to_native p0 p1 in some (record fh { len = len }, db, not (ltb len 126))
read_len16 fh db = none

unfoldable pub read_len64 : FrameHeader → Bytes → Option (FrameHeader × Bytes × Bool)
unfolding big_uint64_to_native
read_len64 fh (p0 ∷ p1 ∷ p2 ∷ p3 ∷ p4 ∷ p5 ∷ p6 ∷ p7 ∷ db) =
    let len = big_uint64_to_native p0 p1 p2 p3 p4 p5 p6 p7 in
    some (record fh { len = len }, db, not (ltb len 65536))
read_len64 fh db = none

unfoldable pub read_len : FrameHeader → Bytes → Option (FrameHeader × Bytes × Bool)
unfolding read_len16 read_len64
read_len fh db =
    if fh.len == 126
    then read_len16 fh db
    else if fh.len == 127
    then read_len64 fh db
    else some (fh, db, true)

unfoldable pub read_masking_key : FrameHeader → Bytes → Option (FrameHeader × Bytes)
unfolding little_uint32_to_native
read_masking_key fh (p0 ∷ p1 ∷ p2 ∷ p3 ∷ db) =
    some (record fh { key = little_uint32_to_native p0 p1 p2 p3 }, db)
read_masking_key fh db = none

unfoldable pub read_key : FrameHeader → Bytes → Option (FrameHeader × Bytes)
unfolding read_masking_key
read_key fh db = if fh.mask then read_masking_key fh db else some (record fh { key = 0 }, db)

-- The end of `read_fh2`: the sizes of the message, once the header is complete.
unfoldable pub account : StreamBase → Bytes → FrameHeader → Step
unfolding is_control
account st db fh =
    let st' = record st {
      rd_fh = fh;
      rd_key = if fh.mask then prepare_key64 fh.key else st.rd_key;
    } in
    if is_control fh.op
    then record { st = st'; db = db; code = code_none; need = 0 }
    else if is_cont fh.op && ltb (2 ^ 64 - 1 - fh.len) st.rd_size
    then record { st = st'; db = db; code = code_too_big; need = 0 }
    else let size = if is_cont fh.op then st.rd_size + fh.len else fh.len in
      let st'' = record st' {
        rd_size = size;
        rd_opcode = if is_cont fh.op then st.rd_opcode else fh.op;
      } in
      if not (st.rd_msg_max == 0) && ltb st.rd_msg_max size
      then record { st = st''; db = db; code = code_too_big; need = 0 }
      else record {
        st = record st'' { rd_need = fh.len; rd_cont = not fh.fin };
        db = db;
        code = code_none;
        need = 0;
      }

unfoldable pub read_fh2 : StreamBase → Bytes → Option Step
unfolding read_len read_key account
read_fh2 st db = elim (read_len st.rd_fh db) [
  | none ↦ none
  | some (fh, db', canonical) ↦
      if not canonical
      then some
          (record { st = record st { rd_fh = fh }; db = db'; code = code_protocol_error; need = 0 })
      else Option.map (λ r. account st r.1 r.0) (read_key fh db')
]
