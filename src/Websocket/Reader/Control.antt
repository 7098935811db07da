-- ===== src/Websocket/Reader/Control.antt =====
-- stream.ipp: what `read_frame` does with a control frame, and where it fails the connection.
use beast.Base.{suc, true, not, ltb, ◌==◌, if◌then◌else◌, none, some, Bytes, [], ◌∷◌, ◌++◌, length}
use beast.Websocket.Frame.{Endian}
use beast.Websocket.Stream.{Stream, send, draw}
use beast.Websocket.StreamBase.{CloseReason}
use beast.Websocket.StreamBase.Close.{read_close}
use beast.Websocket.StreamBase.Write.{masked, write_ping, write_close}
use beast.Websocket.Types.{Opcode, close, ping, pong, CloseCode, code_none, code_normal}
use beast.Websocket.Utf8.{check_utf8}
use beast.Websocket.Reader.{
  Net, Reader, Error, below_failed, closed, failed, error, Round, again, stop, broken, set_st,
  set_failed, read_exactly, read_failed,
}

-- `write_ping` with `pong`, and the write.
unfoldable pub send_pong : Endian → Net → Bytes → Reader → Reader
send_pong e net payload r = record r {
  s = send net.below (write_ping e r.s.st [] pong payload (net.below.keys r.s.drawn)) (draw r.s);
}

-- `wr_close_ = true`, `write_close`, and the write.
unfoldable pub send_close : Endian → Net → CloseReason → Stream → Stream
send_close e net cr s =
    let s' = record s { st = record s.st { wr_close = true } } in
    send net.below (write_close e s'.st [] cr (net.below.keys s.drawn)) (draw s')

-- `call_teardown`, and the error code behind it.
unfoldable pub tear_down : Net → Error → Reader → Round
tear_down net ec r =
    let r' = set_failed true (record r { teardowns = suc r.teardowns }) in
    stop r' (error (if net.teardown_fails then below_failed else ec))

-- "Fail the connection".
unfoldable pub fail_connection : Endian → Net → CloseCode → Reader → Round
unfolding send_close tear_down
fail_connection e net code r =
    let r' = record r { s = send_close e net (record { code = code; reason = [] }) r.s } in
    if r.s.st.wr_close
    then tear_down net failed r
    else if r'.s.st.failed
    then stop r' (error below_failed)
    else tear_down net failed r'

-- A close frame with its payload.
unfoldable pub on_close : Endian → Net → Bytes → Reader → Round
unfolding fail_connection send_close tear_down
on_close e net fb r = elim (read_close check_utf8 r.s.st.cr fb) [
  | none ↦ broken
  | some (cr, code) ↦
      let r' = set_st (record r.s.st { cr = cr }) r in
      let reply : CloseReason = record {
        code = if cr.code == code_none then code_normal else cr.code;
        reason = [];
      } in
      let r'' = record r' { s = send_close e net reply r'.s } in
      if not (code == code_none)
      then fail_connection e net code r'
      else if r.s.st.wr_close
      then tear_down net closed r'
      else if r''.s.st.failed
      then stop r'' (error below_failed)
      else tear_down net closed r''
]

-- A ping: `read(ping_data&, ...)` is the identity up to 125 bytes.
unfoldable pub on_ping : Endian → Net → Bytes → Reader → Round
unfolding send_pong
on_ping e net fb r =
    let r' = send_pong e net fb r in
    if ltb 125 (length fb)
    then broken
    else if r'.s.st.failed
    then stop r' (error below_failed)
    else again r'

unfoldable pub on_pong : Net → Bytes → Reader → Round
on_pong net fb r =
    if ltb 125 (length fb)
    then broken
    else again (if net.pong_cb then record r { pongs = r.pongs ++ (fb ∷ []) } else r)

-- A control frame with its payload, unmasked; what is neither is asserted to be a close.
unfoldable pub on_control : Endian → Net → Opcode → Bytes → Reader → Round
unfolding on_ping on_pong on_close
on_control e net ping fb r = on_ping e net fb r
on_control e net pong fb r = on_pong net fb r
on_control e net close fb r = on_close e net fb r
on_control e net op fb r = broken

-- The payload of a control frame is read behind what the header has left in `fb`.
unfoldable pub read_control : Endian → Net → Bytes → Reader → Round
unfolding on_control
read_control e net fb r =
    let fh = r.s.st.rd_fh in
    if ltb 0 fh.len
    then elim (read_exactly fh.len r) [
      | none ↦ read_failed r
      | some (mb, r') ↦
          let m = masked fh.mask mb r.s.st.rd_key in
          on_control e net fh.op (fb ++ m.0) (set_st (record r'.s.st { rd_key = m.1 }) r')
    ]
    else on_control e net fh.op fb r
