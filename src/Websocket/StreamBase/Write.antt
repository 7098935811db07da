-- ===== src/Websocket/StreamBase/Write.antt =====
-- What stream_base.hpp writes: the write buffer and the control frames.
use beast.Base.{
  ℕ, ◌+◌, ◌^◌, ◌%◌, Bool, true, false, not, ◌||◌, ◌==◌, if◌then◌else◌, Option, none, some, Bytes,
  ◌++◌, length,
}
use beast.Websocket.Frame.{Endian, write}
use beast.Websocket.Mask.Defs.{prepare_key64, mask_general64}
use beast.Websocket.StreamBase.{CloseReason, StreamBase}
use beast.Websocket.Types.{Opcode, close, code_none, Role, client, server, FrameHeader}

abbrev pub is_client : Role → Bool
is_client client = true
is_client server = false

-- `! wr_.buf || wr_.max != wr_buf_size_`
abbrev stale : Option ℕ → Bool
stale none = true
stale (some n) = false

-- `wr_prepare`; the buffer is its size.
unfoldable pub wr_prepare : StreamBase → Bool → StreamBase
wr_prepare st compress =
    let w = record st.wr { autofrag = st.wr_autofrag; compress = compress; size = 0 } in
    if compress || w.autofrag || is_client st.role
    then (if stale w.buf || not (w.max == st.wr_buf_size)
        then record st { wr = record w { max = st.wr_buf_size; buf = some st.wr_buf_size } }
        else record st { wr = w })
    else record st { wr = record w { max = st.wr_buf_size; buf = none } }

-- The header of a control frame. `key` is what `maskgen_()` gives; where nothing is masked it is
-- whatever the header holds.
abbrev pub control_header : StreamBase → Opcode → ℕ → ℕ → FrameHeader
control_header st op len key = record {
  op = op;
  fin = true;
  mask = is_client st.role;
  rsv1 = false;
  rsv2 = false;
  rsv3 = false;
  len = len;
  key = key;
}

-- `mask_inplace` where the frame is masked; gives the bytes and the key behind them.
abbrev pub masked : Bool → Bytes → ℕ → Bytes × ℕ
masked true bs key = mask_general64 bs key
masked false bs key = (bs, key)

unfoldable pub write_ping : Endian → StreamBase → Bytes → Opcode → Bytes → ℕ → Bytes
write_ping e st db op payload key =
    let fh = control_header st op (length payload) key in
    write e db fh ++ (masked fh.mask payload (prepare_key64 key)).0

-- The frame of a close reason, with its code in two bytes and the text behind it.
unfoldable pub write_close : Endian → StreamBase → Bytes → CloseReason → ℕ → Bytes
write_close e st db cr key =
    let none_given = cr.code == code_none in
    let fh = control_header st close (if none_given then 0 else 2 + length cr.reason) key in
    let header = write e db fh in
    let code = masked fh.mask (e.big16 (cr.code % 2 ^ 16)) (prepare_key64 key) in
    if none_given then header else header ++ code.0 ++ (masked fh.mask cr.reason code.1).0
